-- ===== src/Shell/Messages/Round.antt =====
-- Which messages a round of MessageManager::run takes off the queue.
use nycu_csic30091_netw.Prelude.{ℕ, zero, suc, ◌-◌, ◌≤◌, ◌<◌, true, Option, none, some}
use nycu_csic30091_netw.Prelude.{List, [], ◌∷◌, ◌≡◌, ◌≢◌, refl, arith, ap, ◌∙◌, subst, drop}
use nycu_csic30091_netw.Prelude.{length, ◌>>=◌, >>=-eq-some, eq_of_some, Bool-cases, inl, inr, ◌==◌}
use nycu_csic30091_netw.Prelude.{if◌then◌else◌}
use nycu_csic30091_netw.Shell.Messages.Model.{
  Message, Queue, Effect, handle, Walk, step_walk, is_exit,
}
use nycu_csic30091_netw.Shell.Messages.Model.{walk, erase_at, erase_all, round}

abbrev count_up : ℕ → ℕ → List ℕ
count_up i zero = []
count_up i (suc k) = i ∷ count_up (suc i) k

erase_all-suc :
    (i k : ℕ) (m : Message) (q : Queue)
    → erase_all (count_up (suc i) k) (m ∷ q) ≡ (do r ← erase_all (count_up i k) q; some (m ∷ r))
unfolding erase_all erase_at
erase_all-suc i zero m q = refl
erase_all-suc i (suc k) m q =
    rw (erase_all-suc (suc i) k m q) (chain (erase_all (count_up (suc i) k) q))
  where
    chain :
        (o : Option Queue)
        → ((o >>= λ r. some (m ∷ r)) >>= λ q'. erase_at (suc i) q')
          ≡ ((o >>= λ q'. erase_at i q') >>= λ r. some (m ∷ r))
    chain none = refl
    chain (some r) = refl

-- Erasing the indices below `k`, the last one first, drops the first `k` messages.
erase_all-drop : (k : ℕ) (q : Queue) → k ≤ length q → erase_all (count_up 0 k) q ≡ some (drop k q)
unfolding erase_all erase_at
erase_all-drop zero q h = refl
erase_all-drop (suc k) [] h = absurd (omega arith)
erase_all-drop (suc k) (m ∷ q) h =
    rw (erase_all-suc 0 k m q) (rw (erase_all-drop k q (omega arith)))

-- The indices that a walk collects count the messages that it handled.
record IsCounted (idx : ℕ) (q : Queue) (w : Walk) : Type 0 where
  indices : w.remove_idx ≡ count_up idx (length w.effects)
  bounded : length w.effects ≤ length q

abbrev last_walk : Walk
last_walk = record { effects = []; remove_idx = []; exit_flag = true }

IsCounted-step :
    (idx : ℕ) (m : Message) (q : Queue) (e : Effect) (rest : Option Walk) (w : Walk)
    → ((w' : Walk) → rest ≡ some w' → IsCounted (suc idx) q w')
    → ((if is_exit e then some last_walk else rest) >>= λ w'. some (step_walk idx e w')) ≡ some w
    → IsCounted idx (m ∷ q) w
IsCounted-step idx m q e rest w ih h = elim (Bool-cases (is_exit e)) [
  | inl x ↦
      let end : Walk = record { effects = e ∷ []; remove_idx = idx ∷ []; exit_flag = true } in
      let done : end ≡ w = eq_of_some (rw x at h) in
      subst (IsCounted idx (m ∷ q)) done (record { indices = refl; bounded = omega arith })
  | inr x ↦
      let (w', r, done) = >>=-eq-some rest _ (rw x at h) in
      let i = ih w' r in
      subst (IsCounted idx (m ∷ q)) (eq_of_some done)
        (record { indices = ap (◌∷◌ idx) i.indices; bounded = omega (arith, i.bounded) })
]

walk-IsCounted : (pid idx : ℕ) (q : Queue) (w : Walk) → walk pid idx q ≡ some w → IsCounted idx q w
unfolding walk
walk-IsCounted pid idx [] w e =
    subst (IsCounted idx []) (eq_of_some e) (record { indices = refl; bounded = omega arith })
walk-IsCounted pid idx (m ∷ q) w e = elim (Bool-cases (m.pid == pid)) [
  | inr other ↦
      let i = walk-IsCounted pid idx q w (rw other at e) in
      record { indices = i.indices; bounded = omega (arith, i.bounded) }
  | inl own ↦
      let (f, _, h) = >>=-eq-some (handle m) _ (rw own at e) in
      IsCounted-step idx m q f (walk pid (suc idx) q) w (walk-IsCounted pid (suc idx) q) h
]

-- A round whose walk over the queue comes to a result takes as many messages off the queue as it
-- handled, and it takes them off the front, whichever they are.
pub round-drop :
    (pid : ℕ) (q : Queue) (w : Walk)
    → walk pid 0 q ≡ some w
    → round pid q ≡ some (w, drop (length w.effects) q)
unfolding round
round-drop pid q w e =
    let c = walk-IsCounted pid 0 q w e in
    rw e (rw c.indices (rw (erase_all-drop (length w.effects) q c.bounded)))

walk-foreign : (pid : ℕ) (m : Message) (q : Queue) → m.pid ≢ pid → walk pid 0 (m ∷ q) ≡ walk pid 0 q
unfolding walk
walk-foreign pid m q h = ground arith

-- If the first message is for another process, and the walk over the others comes to a result and
-- handles some, then a round drops the first message without handling it: its effects are those of
-- the queue behind, of which it takes off one message less than it handled.
pub round_loses_foreign :
    (pid : ℕ) (m : Message) (q : Queue) (w : Walk)
    → m.pid ≢ pid
    → walk pid 0 q ≡ some w
    → 0 < length w.effects
    → round pid (m ∷ q) ≡ some (w, drop (length w.effects - 1) q)
round_loses_foreign pid m q w h e n =
    round-drop pid (m ∷ q) w (walk-foreign pid m q h ∙ e)
    ∙ ap (λ s. some (w, s)) (shift (length w.effects) n)
  where
    shift : (k : ℕ) → 0 < k → drop k (m ∷ q) ≡ drop (k - 1) q
    shift zero n = absurd (omega arith)
    shift (suc k) n = let e : suc k - 1 ≡ k = omega arith in rw e
