-- ===== src/Shell/Run/Child.antt =====
-- What childPipeHandler's calls make of the descriptors of the child. `close`, `dup2` and `open` are the
-- system's: a table maps each descriptor to what it stands for.
use nycu_csic30091_netw.Prelude.{
  ℕ, ◌<◌, Bool, true, false, ◌&&◌, ◌||◌, none, some, List, [], ◌∷◌, ◌++◌, ◌==◌, if◌then◌else◌, ◌≡◌,
  ◌≢◌, refl, arith, sym,
}
use nycu_csic30091_netw.Prelude.Bytes.{Bytes}
use nycu_csic30091_netw.Cxx.Map.{Map, find, insert, erase, find-insert, find-erase}
use nycu_csic30091_netw.Shell.Pipes.Model.{
  Pipe, PipeManager, PipeMode, Call, close, dup2, open_file, dup2_opened, is_pipe, is_file,
  is_stderr, writes_to_pipe, child_pipe_handler,
}

-- Four descriptors of two pipes, none of them a standard one.
pub record IsApart (c p : Pipe) : Type 0 where
  pub ends : c.read ≢ c.write
  pub new_ends : p.read ≢ p.write
  pub above : (2 < c.read) × (2 < c.write) × (2 < p.read) × (2 < p.write)
  pub reads : c.read ≢ p.read
  pub crossed : (c.read ≢ p.write) × (c.write ≢ p.read)
  pub writes : c.write ≢ p.write

abbrev pub is_end : Pipe → ℕ → Bool
is_end p j = p.read == j || p.write == j

module _ {ℓ} {V : Type ℓ} (opened : ℕ) (file : Bytes → V) where
  -- `opened` is the descriptor that `open` gives. A `dup2` of a descriptor that is not open fails.
  unfoldable pub do_call : Call → Map V → Map V
  do_call (close n) t = erase n t
  do_call (dup2 a b) t = elim (find a t) [ none ↦ t | some x ↦ insert b x t ]
  do_call (open_file name) t = insert opened (file name) t
  do_call (dup2_opened b) t = elim (find opened t) [ none ↦ t | some x ↦ insert b x t ]

  unfoldable pub do_calls : List Call → Map V → Map V
  do_calls [] t = t
  do_calls (c ∷ cs) t = do_calls cs (do_call c t)

  do_calls-append :
      (cs ds : List Call) (t : Map V) → do_calls (cs ++ ds) t ≡ do_calls ds (do_calls cs t)
  unfolding do_calls
  do_calls-append [] ds t = refl
  do_calls-append (c ∷ cs) ds t = do_calls-append cs ds (do_call c t)

  find-close :
      (r j : ℕ) (t : Map V) → find j (do_call (close r) t) ≡ (if r == j then none else find j t)
  unfolding do_call
  find-close r j t = find-erase r j t

  find-dup2 :
      (a b j : ℕ) (t : Map V) (x : V)
      → find a t ≡ some x
      → find j (do_call (dup2 a b) t) ≡ (if b == j then some x else find j t)
  unfolding do_call
  find-dup2 a b j t x e = rw (e, do_call) (find-insert b j x t)

  find-close_dup2_close :
      (r w target j : ℕ) (t : Map V) (x : V)
      → r ≢ w
      → find r t ≡ some x
      → find j (do_calls (close w ∷ dup2 r target ∷ close r ∷ []) t) ≡ (
          if r == j
          then none
          else if target == j
          then some x
          else if w == j
          then none
          else find j t)
  unfolding do_calls
  find-close_dup2_close r w target j t x n e =
      let t1 = do_call (close w) t in
      let e' : find r t1 ≡ some x = ground (arith, find-close w r t) in
      rw
        (
          find-close r j (do_call (dup2 r target) t1),
          find-dup2 r target j t1 x e',
          find-close w j t,
        )
        refl

  find-both_dup2 :
      (r w j : ℕ) (t : Map V) (x : V)
      → r ≢ w
      → 2 < w
      → find w t ≡ some x
      → find j (do_calls (close r ∷ dup2 w 1 ∷ dup2 w 2 ∷ close w ∷ []) t) ≡ (
          if w == j
          then none
          else if 2 == j
          then some x
          else if 1 == j
          then some x
          else if r == j
          then none
          else find j t)
  unfolding do_calls
  find-both_dup2 r w j t x n l e =
      let t1 = do_call (close r) t in
      let t2 = do_call (dup2 w 1) t1 in
      let e1 : find w t1 ≡ some x = ground (arith, find-close r w t) in
      let e2 : find w t2 ≡ some x = ground (arith, find-dup2 w 1 w t1 x e1) in
      rw
        (
          find-close w j (do_call (dup2 w 2) t2),
          find-dup2 w 2 j t2 x e2,
          find-dup2 w 1 j t1 x e1,
          find-close r j t,
        )
        refl

  abbrev both_calls : Pipe → Pipe → Bool → List Call
  both_calls c p b =
      (close c.write ∷ dup2 c.read 0 ∷ close c.read ∷ [])
      ++ close p.read
        ∷ dup2 p.write 1
        ∷ ((if b then dup2 p.write 2 ∷ [] else []) ++ close p.write ∷ [])

  child-both_calls :
      (mode mode2 : PipeMode) (out_filename : Bytes) (m : PipeManager)
      → is_file mode || is_file mode2 ≡ false
      → writes_to_pipe mode mode2 ≡ true
      → (0 < m.current_pipe.read) × (0 < m.current_pipe.write)
      → child_pipe_handler mode mode2 out_filename m
        ≡ both_calls m.current_pipe m.new_pipe (is_stderr mode || is_stderr mode2)
  unfolding child_pipe_handler
  child-both_calls mode mode2 out_filename m nf wr l =
      let e : is_pipe m.current_pipe ≡ true = ground (arith, l) in rw (e, nf, wr) refl

  find-output :
      (r w : ℕ) (b : Bool) (j : ℕ) (t : Map V) (x : V)
      → r ≢ w
      → 2 < w
      → find w t ≡ some x
      → find j
          (do_calls (close r ∷ dup2 w 1 ∷ ((if b then dup2 w 2 ∷ [] else []) ++ close w ∷ [])) t)
        ≡ (if w == j
            then none
            else if (2 == j) && b
            then some x
            else if 1 == j
            then some x
            else if r == j
            then none
            else find j t)
  find-output r w true j t x n l e = rw (find-both_dup2 r w j t x n l e) (ground arith)
  find-output r w false j t x n l e =
      rw (find-close_dup2_close w r 1 j t x (λ h. n (sym h)) e) (ground arith)

  -- A command between two pipes, with no file: where its descriptors lead once its calls are made.
  -- The descriptor 0 leads to what the read end of its input was, 1 to what the write end of its output
  -- was, 2 also to the latter if the mode is `!n` and to what it was before else, the four ends are
  -- closed, and any other descriptor is as it was.
  pub child_redirects :
      (mode mode2 : PipeMode) (out_filename : Bytes) (m : PipeManager) (t : Map V) (x y : V) (j : ℕ)
      → is_file mode || is_file mode2 ≡ false
      → writes_to_pipe mode mode2 ≡ true
      → IsApart m.current_pipe m.new_pipe
      → find m.current_pipe.read t ≡ some x
      → find m.new_pipe.write t ≡ some y
      → find j (do_calls (child_pipe_handler mode mode2 out_filename m) t) ≡ (
          if is_end m.current_pipe j || is_end m.new_pipe j
          then none
          else if 0 == j
          then some x
          else if 1 == j
          then some y
          else if (2 == j) && (is_stderr mode || is_stderr mode2)
          then some y
          else find j t)
  child_redirects mode mode2 out_filename m t x y j nf wr v ex ey =
      let c = m.current_pipe in
      let p = m.new_pipe in
      let b = is_stderr mode || is_stderr mode2 in
      let i : List Call = close c.write ∷ dup2 c.read 0 ∷ close c.read ∷ [] in
      let t1 = do_calls i t in
      let after = λ (k : ℕ). find-close_dup2_close c.read c.write 0 k t x v.ends ex in
      let ey' : find p.write t1 ≡ some y =
        ground (arith, after p.write, v.writes, v.crossed, v.above) in
      rw
        (child-both_calls mode mode2 out_filename m nf wr
          (omega (arith, v.above), omega (arith, v.above)))
        (rw
          (do_calls-append i
            (close p.read
              ∷ dup2 p.write 1
              ∷ ((if b then dup2 p.write 2 ∷ [] else []) ++ close p.write ∷ []))
            t)
          (rw (find-output p.read p.write b j t1 y v.new_ends (omega (arith, v.above)) ey')
            (rw (after j) (ground (arith, v.above, v.reads, v.crossed, v.writes)))))
