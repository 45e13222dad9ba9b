-- ===== src/Socks/Session/Tunnel.antt =====
-- The relay of project4/src/socksServer/src/SocksSession.cpp: readFromClient, readFromServer,
-- writeToServer and writeToClient. Each direction reads a chunk, writes it, and reads again; the
-- system chooses when an operation completes, with how many bytes, and when it fails. The histories
-- record what was read from and written to each socket; `up` leads from the client to the server.
use nycu_csic30091_netw.Prelude.{
  ℕ, ◌≤◌, Bool, true, false, ◌≡◌, refl, ap, sym, subst, ◌∙◌, ◌⊎◌, inl, inr,
}
use nycu_csic30091_netw.Prelude.{[], ◌++◌, append-nil, append_assoc, length}
use nycu_csic30091_netw.Prelude.Bytes.{Bytes}

-- The operation that a direction waits for.
pub data Pending : Type 0 where
  reading : Pending
  writing : Bytes → Pending
  stopped : Pending

pub record Tunnel : Type 0 where
  pub up : Pending
  pub down : Pending
  pub client_open : Bool
  pub server_open : Bool
  pub from_client : Bytes
  pub to_server : Bytes
  pub from_server : Bytes
  pub to_client : Bytes

abbrev pub buf_size : ℕ
buf_size = 1048576

-- readFromClient and readFromServer, called one after the other.
abbrev pub opened : Tunnel
opened = record {
  up = reading;
  down = reading;
  client_open = true;
  server_open = true;
  from_client = [];
  to_server = [];
  from_server = [];
  to_client = [];
}

-- What a completion brings: an error, or the bytes of the buffer.
pub data Completion : Type 0 where
  error : Completion
  done : Bytes → Completion

-- The handler of readFromClient: the bytes go into the write buffer, and writeToServer starts.
unfoldable pub on_read_client : Completion → Tunnel → Tunnel
on_read_client error t = record t { up = stopped; client_open = false; server_open = false }
on_read_client (done bytes) t = record t {
  up = writing bytes;
  from_client = t.from_client ++ bytes;
}

-- The handler of writeToServer, for the bytes that were written: readFromClient starts again.
unfoldable pub on_write_server : Completion → Tunnel → Tunnel
on_write_server error t = record t { up = stopped; client_open = false; server_open = false }
on_write_server (done bytes) t = record t { up = reading; to_server = t.to_server ++ bytes }

-- The handler of readFromServer.
unfoldable pub on_read_server : Completion → Tunnel → Tunnel
on_read_server error t = record t { down = stopped; client_open = false; server_open = false }
on_read_server (done bytes) t = record t {
  down = writing bytes;
  from_server = t.from_server ++ bytes;
}

-- The handler of writeToClient.
unfoldable pub on_write_client : Completion → Tunnel → Tunnel
on_write_client error t = record t { down = stopped; client_open = false; server_open = false }
on_write_client (done bytes) t = record t { down = reading; to_client = t.to_client ++ bytes }

-- A read brings at most a buffer. `async_write` completes with all bytes written, or with an error
-- after some of them.
pub data Step : Tunnel → Tunnel → Type 0 where
  client_read :
      (t : Tunnel) (chunk : Bytes)
      → t.up ≡ reading
      → t.client_open ≡ true
      → length chunk ≤ buf_size
      → Step t (on_read_client (done chunk) t)
  client_fails : (t : Tunnel) → t.up ≡ reading → Step t (on_read_client error t)
  server_written :
      (t : Tunnel) (chunk : Bytes)
      → t.up ≡ writing chunk
      → t.server_open ≡ true
      → Step t (on_write_server (done chunk) t)
  server_write_fails :
      (t : Tunnel) (sent left : Bytes)
      → t.up ≡ writing (sent ++ left)
      → Step t (on_write_server error (record t { to_server = t.to_server ++ sent }))
  server_read :
      (t : Tunnel) (chunk : Bytes)
      → t.down ≡ reading
      → t.server_open ≡ true
      → length chunk ≤ buf_size
      → Step t (on_read_server (done chunk) t)
  server_fails : (t : Tunnel) → t.down ≡ reading → Step t (on_read_server error t)
  client_written :
      (t : Tunnel) (chunk : Bytes)
      → t.down ≡ writing chunk
      → t.client_open ≡ true
      → Step t (on_write_client (done chunk) t)
  client_write_fails :
      (t : Tunnel) (sent left : Bytes)
      → t.down ≡ writing (sent ++ left)
      → Step t (on_write_client error (record t { to_client = t.to_client ++ sent }))

pub data Reach (s : Tunnel) : Tunnel → Type 0 where
  here : Reach s s
  next : {t u : Tunnel} → Reach s t → Step t u → Reach s u

-- What one direction owes: all that was read is written, or is the chunk in flight; a direction that
-- stopped has written a prefix of what it read.
abbrev pub Relays : Pending → Bytes → Bytes → Type 0
Relays reading read written = read ≡ written
Relays (writing chunk) read written = (read ≡ written ++ chunk) × (length chunk ≤ buf_size)
Relays stopped read written = (left : Bytes) × (read ≡ written ++ left)

pub record Inv (t : Tunnel) : Type 0 where
  pub upward : Relays t.up t.from_client t.to_server
  pub downward : Relays t.down t.from_server t.to_client
  pub together : t.client_open ≡ t.server_open
  pub live : (t.up ≡ stopped) ⊎ (t.down ≡ stopped) ⊎ (t.client_open ≡ true)
  pub up_closes : t.up ≡ stopped → t.client_open ≡ false
  pub down_closes : t.down ≡ stopped → t.client_open ≡ false

Relays-prefix :
    (p : Pending) (read written : Bytes)
    → Relays p read written
    → (left : Bytes) × (read ≡ written ++ left)
Relays-prefix reading read written h = ([], h ∙ sym (append-nil written))
Relays-prefix (writing chunk) read written h = (chunk, h.0)
Relays-prefix stopped read written h = h

module _ (p : Pending) (read written : Bytes) (h : Relays p read written) where
  after_read :
      (chunk : Bytes)
      → p ≡ reading
      → length chunk ≤ buf_size
      → Relays (writing chunk) (read ++ chunk) written
  after_read chunk e b = (ap (λ r. r ++ chunk) (subst (λ q. Relays q read written) e h), b)

  after_write : (chunk : Bytes) → p ≡ writing chunk → Relays reading read (written ++ chunk)
  after_write chunk e = (subst (λ q. Relays q read written) e h).0

  after_read_error : p ≡ reading → Relays stopped read written
  after_read_error e = Relays-prefix reading read written (subst (λ q. Relays q read written) e h)

  after_write_error :
      (sent left : Bytes) → p ≡ writing (sent ++ left) → Relays stopped read (written ++ sent)
  after_write_error sent left e =
      (left, (subst (λ q. Relays q read written) e h).0 ∙ sym (append_assoc written sent left))

Step-Inv : {t u : Tunnel} → Step t u → Inv t → Inv u
unfolding on_read_client on_write_server on_read_server on_write_client
Step-Inv (client_read t chunk p o b) v = record {
  upward = after_read t.up t.from_client t.to_server v.upward chunk p b;
  downward = v.downward;
  together = v.together;
  live = inr (inr o);
  up_closes = λ e. cc;
  down_closes = v.down_closes;
}
Step-Inv (client_fails t p) v = record {
  upward = after_read_error t.up t.from_client t.to_server v.upward p;
  downward = v.downward;
  together = refl;
  live = inl refl;
  up_closes = λ e. refl;
  down_closes = λ e. refl;
}
Step-Inv (server_written t chunk p o) v = record {
  upward = after_write t.up t.from_client t.to_server v.upward chunk p;
  downward = v.downward;
  together = v.together;
  live = inr (inr (v.together ∙ o));
  up_closes = λ e. cc;
  down_closes = v.down_closes;
}
Step-Inv (server_write_fails t sent left p) v = record {
  upward = after_write_error t.up t.from_client t.to_server v.upward sent left p;
  downward = v.downward;
  together = refl;
  live = inl refl;
  up_closes = λ e. refl;
  down_closes = λ e. refl;
}
Step-Inv (server_read t chunk p o b) v = record {
  upward = v.upward;
  downward = after_read t.down t.from_server t.to_client v.downward chunk p b;
  together = v.together;
  live = inr (inr (v.together ∙ o));
  up_closes = v.up_closes;
  down_closes = λ e. cc;
}
Step-Inv (server_fails t p) v = record {
  upward = v.upward;
  downward = after_read_error t.down t.from_server t.to_client v.downward p;
  together = refl;
  live = inr (inl refl);
  up_closes = λ e. refl;
  down_closes = λ e. refl;
}
Step-Inv (client_written t chunk p o) v = record {
  upward = v.upward;
  downward = after_write t.down t.from_server t.to_client v.downward chunk p;
  together = v.together;
  live = inr (inr o);
  up_closes = v.up_closes;
  down_closes = λ e. cc;
}
Step-Inv (client_write_fails t sent left p) v = record {
  upward = v.upward;
  downward = after_write_error t.down t.from_server t.to_client v.downward sent left p;
  together = refl;
  live = inr (inl refl);
  up_closes = λ e. refl;
  down_closes = λ e. refl;
}

Inv-opened : Inv opened
Inv-opened = record {
  upward = refl;
  downward = refl;
  together = refl;
  live = inr (inr refl);
  up_closes = λ e. cc;
  down_closes = λ e. cc;
}

-- After any run of a tunnel: what was written to the server is a prefix of what was read from the
-- client, the missing part being nothing or the chunk in flight while the direction lives, and so
-- the other way; both sockets are open or neither is, and they are closed exactly if a direction
-- has stopped.
pub Reach-Inv : {t : Tunnel} → Reach opened t → Inv t
Reach-Inv here = Inv-opened
Reach-Inv (next r st) = Step-Inv st (Reach-Inv r)
