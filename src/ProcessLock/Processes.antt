-- ===== src/ProcessLock/Processes.antt =====
-- The processes that share a lock: which run, since when, and the tokens of those that have ended.
use sharedstructures.Base.{
  ℕ, ◌^◌, ◌<◌, ◌≡◌, ◌≢◌, ◌⊎◌, refl, Bool-cases, ◌==◌, ==→eq, inl, inr, ◌∙◌, ap, sym, arith, Bool,
  true, false, set_at,
}
use sharedstructures.ProcessLock.Token.{
  pid_bits, process_token, pid_for_token, process_for_token_is_running, pid_for-process_token,
  process_token-IsRunning, process_token-nonzero,
}

-- `start i` is what start_time_for_pid gives for the id `i`: 0 where no process has it.
pub record Processes : Type 0 where
  pub start : ℕ → ℕ
  pub buried : ℕ → Bool

abbrev pub token_of : Processes → ℕ → ℕ
token_of p i = process_token (p.start i) i

abbrev pub spawn : ℕ → ℕ → Processes → Processes
spawn i s p = record p { start = set_at p.start i s }

abbrev pub crash : ℕ → Processes → Processes
crash i p = record p { start = set_at p.start i 0; buried = set_at p.buried (token_of p i) true }

-- The ids are below the bits that a token keeps for them, and none is given again while its token
-- would be that of a process that has ended.
pub record Spawnable (i s : ℕ) (p : Processes) : Type 0 where
  pub positive : i ≢ 0
  pub small : i < 2 ^ pid_bits
  pub started : s ≢ 0
  pub idle : p.start i ≡ 0
  pub fresh : p.buried (process_token s i) ≡ false

pub record InOrder (p : Processes) : Type 0 where
  pub positive : (i : ℕ) → p.start i ≢ 0 → i ≢ 0
  pub small : (i : ℕ) → p.start i ≢ 0 → i < 2 ^ pid_bits
  pub unburied : (i : ℕ) → p.start i ≢ 0 → p.buried (token_of p i) ≡ false

-- A word that some process has put there.
abbrev pub Known : Processes → ℕ → Type 0
Known p v = (p.buried v ≡ true) ⊎ ((j : ℕ) × (p.start j ≢ 0) × (v ≡ token_of p j))

module _ {p : Processes} (o : InOrder p) where
  pub token_of-nonzero : (i : ℕ) → p.start i ≢ 0 → token_of p i ≢ 0
  token_of-nonzero i r = process_token-nonzero (p.start i) i (o.positive i r) (o.small i r)

  pub token_of-injective :
      (i j : ℕ) → p.start i ≢ 0 → p.start j ≢ 0 → token_of p i ≡ token_of p j → i ≡ j
  token_of-injective i j r q e =
      sym (pid_for-process_token (p.start i) i (o.small i r))
      ∙ ap pid_for_token e
      ∙ pid_for-process_token (p.start j) j (o.small j q)

  pub stopped-buried :
      (v : ℕ) → Known p v → process_for_token_is_running p.start v ≡ false → p.buried v ≡ true
  stopped-buried v (inl b) h = b
  stopped-buried v (inr (j, r, e)) h =
      let running : process_for_token_is_running p.start (token_of p j) ≡ true =
        (process_token-IsRunning p.start (p.start j) j (o.small j r)).1 (r, refl) in
      cc

  pub spawn-InOrder : (i s : ℕ) → Spawnable i s p → InOrder (spawn i s p)
  spawn-InOrder i s n = record {
    positive = λ j r. ground (arith, o.positive j, n.positive);
    small = λ j r. ground (arith, o.small j, n.small);
    unburied = λ j r. ground (arith, o.unburied j, n.fresh);
  }

  pub crash-InOrder : (i : ℕ) → p.start i ≢ 0 → InOrder (crash i p)
  crash-InOrder i q = record {
    positive = λ j r. ground (arith, o.positive j);
    small = λ j r. ground (arith, o.small j);
    unburied = λ j r. ground (arith, o.unburied j, token_of-injective i j);
  }

  pub spawn-Known : (i s v : ℕ) → Spawnable i s p → Known p v → Known (spawn i s p) v
  spawn-Known i s v n (inl b) = inl b
  spawn-Known i s v n (inr (j, r, e)) = inr (j, ground (arith, n.idle), ground (arith, n.idle))

  pub crash-Known : (i v : ℕ) → p.start i ≢ 0 → Known p v → Known (crash i p) v
  crash-Known i v q (inl b) = inl (ground arith)
  crash-Known i v q (inr (j, r, e)) = elim (Bool-cases (i == j)) [
    | inl same ↦ inl (let s = ==→eq i j same in ground arith)
    | inr other ↦ inr (j, ground arith, ground arith)
  ]
