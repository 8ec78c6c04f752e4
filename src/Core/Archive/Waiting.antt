-- ===== src/Core/Archive/Waiting.antt =====
-- The rounds of `wait_for_exit` (tx-core/src/core.rs) are as many as its deadline needs.
use tx_ide_rs.Prelude.{
  ℕ, zero, suc, ◌+◌, ◌*◌, ◌/◌, ◌≤◌, ◌≡◌, refl, sym, ap, ◌∙◌, Bool, true, false, not, arith, leb,
  if◌then◌else◌,
}
use tx_ide_rs.Core.World.{TxCore, World, M, pure, ◌>>=◌, ◌>>◌, ask, effect}
use tx_ide_rs.Core.Archive.{exit_poll, poll, wait_for_exit}

-- What the waiting relies on: a clock that is read as it is, never goes back, and is past a sleep
-- when the sleep is over.
pub record IsClock {T : Type 0} (core : TxCore T) (time : T → ℕ) : Type 0 where
  pub reads : (t : T) → (core.outside.now t).0 ≡ time t
  pub reading : (t : T) → time t ≤ time (core.outside.now t).1
  pub looking : (pid : ℕ) (t : T) → time t ≤ time (core.outside.process_exists pid t).1
  pub sleeping : (ms : ℕ) (t : T) → time t + ms ≤ time (core.outside.sleep ms t)

module _ {T : Type 0} (core : TxCore T) (time : T → ℕ) (clock : IsClock core time) where
  open core use {outside}

  -- One round of the loop, with what follows it.
  abbrev round : ℕ → ℕ → M T Bool → M T Bool
  round pid deadline rest = do
    alive ← ask (outside.process_exists pid)
    if not alive then pure true else (do
      at ← ask outside.now
      if leb deadline at then pure false else (effect (outside.sleep exit_poll) >> rest))

  -- Past the deadline nothing follows; before it what follows starts a sleep later.
  round-eq :
      (pid deadline : ℕ) (rest rest' : M T Bool) (w : World T)
      → ((v : World T)
          → time w.outer + exit_poll ≤ time v.outer
          → (deadline ≤ time w.outer → ⊥)
          → rest v ≡ rest' v)
      → round pid deadline rest w ≡ round pid deadline rest' w
  unfolding ◌>>=◌
  round-eq pid deadline rest rest' w h = by_process (outside.process_exists pid w.outer).0
    where
      looked : T
      looked = (outside.process_exists pid w.outer).1

      read : T
      read = (outside.now looked).1

      by_clock :
          (t : Bool)
          → leb deadline (outside.now looked).0 ≡ t
          → (if t then pure {T = T} false else (effect (outside.sleep exit_poll) >> rest))
              (record w { outer = read })
            ≡ (if t then pure {T = T} false else (effect (outside.sleep exit_poll) >> rest'))
                (record w { outer = read })
      by_clock true e = refl
      by_clock false e =
          h (record w { outer = outside.sleep exit_poll read })
            (omega (
              arith,
              clock.looking pid w.outer,
              clock.reading looked,
              clock.sleeping exit_poll read,
            ))
            (λ past. absurd (ground (arith, clock.looking pid w.outer, clock.reads looked)))

      by_process :
          (alive : Bool)
          → (if not alive then pure {T = T} true else (do
            at ← ask outside.now
            if leb deadline at then pure false else (effect (outside.sleep exit_poll) >> rest)))
              (record w { outer = looked })
            ≡ (if not alive then pure {T = T} true else (do
              at ← ask outside.now
              if leb deadline at then pure false else (effect (outside.sleep exit_poll) >> rest')))
                (record w { outer = looked })
      by_process false = refl
      by_process true = by_clock (leb deadline (outside.now looked).0) refl

  poll-enough :
      (n r pid deadline : ℕ) (w : World T)
      → n ≤ r
      → deadline ≤ time w.outer + exit_poll * n
      → poll core (suc r) pid deadline w ≡ poll core (suc n) pid deadline w
  unfolding poll
  poll-enough zero r pid deadline w more soon =
      round-eq pid deadline (poll core r pid deadline) (poll core zero pid deadline) w
        (λ v later before. absurd (before (omega arith)))
  poll-enough (suc n) zero pid deadline w more soon = absurd (omega arith)
  poll-enough (suc n) (suc r) pid deadline w more soon =
      round-eq pid deadline (poll core (suc r) pid deadline) (poll core (suc n) pid deadline) w
        (λ v later before. poll-enough n r pid deadline v (omega arith) (omega arith))

  -- On a clock that does not go back and is past every sleep, waiting for a process is the same
  -- with any number of rounds more than `wait_for_exit` allows: the deadline falls within them.
  pub wait_for_exit-enough :
      (k pid timeout : ℕ) (w : World T)
      → (ask outside.now >>= λ start. poll core (timeout / exit_poll + 2 + k) pid (start + timeout))
          w
        ≡ wait_for_exit core pid timeout w
  unfolding wait_for_exit ◌>>=◌
  wait_for_exit-enough k pid timeout w =
      let start = (outside.now w.outer).0 in
      let v = record w { outer = (outside.now w.outer).1 } in
      let more : timeout / exit_poll + 2 + k ≡ suc (timeout / exit_poll + 1 + k) = omega arith in
      let least : timeout / exit_poll + 2 ≡ suc (timeout / exit_poll + 1) = omega arith in
      ap (λ n. poll core n pid (start + timeout) v) more
      ∙ poll-enough (timeout / exit_poll + 1) (timeout / exit_poll + 1 + k) pid (start + timeout) v
          (omega arith) (omega (arith, clock.reads w.outer, clock.reading w.outer))
      ∙ sym (ap (λ n. poll core n pid (start + timeout) v) least)
