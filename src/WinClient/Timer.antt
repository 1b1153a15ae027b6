-- ===== src/WinClient/Timer.antt =====
-- In which rounds the client (MyoWin/MyoWin/main.cpp) reads the serial line.
use myodesignproject.Base.{ℕ, zero, suc, ◌+◌, ◌*◌, ◌≤◌, ◌<◌, ◌≡◌, ◌≢◌, ap, ◌∙◌, arith, ◌==◌}
use myodesignproject.WinClient.{tick}

-- The timer after some rounds.
abbrev pub timer_after : ℕ → ℕ → ℕ
timer_after period zero = 0
timer_after period (suc k) = (tick period (timer_after period k)).1

tick_next : (period t : ℕ) → t ≢ period → (tick period t).1 ≡ suc t
unfolding tick
tick_next period t ne = ground arith

tick_reset : (period t : ℕ) → t ≡ period → (tick period t).1 ≡ 1
unfolding tick
tick_reset period t e = ground arith

-- The timer counts the rounds since the first one, or since the last one that read.
timer_after_lem : (p q r : ℕ) → r < suc p → timer_after (suc p) (suc (q * suc p + r)) ≡ suc r
timer_after_lem p zero zero h =
    let e : 0 * suc p + 0 ≡ 0 = omega arith in
    ap (λ k. timer_after (suc p) (suc k)) e ∙ tick_next (suc p) 0 (omega arith)
timer_after_lem p (suc q) zero h =
    let last = timer_after_lem p q p (omega arith) in
    let e : suc q * suc p + 0 ≡ suc (q * suc p + p) = ground arith in
    ap (λ k. timer_after (suc p) (suc k)) e ∙ tick_reset (suc p) _ last
timer_after_lem p q (suc r) h =
    let last = timer_after_lem p q r (omega arith) in
    let e : q * suc p + suc r ≡ suc (q * suc p + r) = omega arith in
    ap (λ k. timer_after (suc p) (suc k)) e
    ∙ tick_next (suc p) _ (omega (arith, last))
    ∙ ap suc last

-- For a period of at least 1: counted from 1 behind the first round, the client reads the serial
-- line in every period-th round and in no other, and in those rounds the timer is between 1 and
-- the period.
pub tick_reads :
    (period q r : ℕ)
    → r < period
    → let timer = timer_after period (suc (q * period + r)) in
      ((tick period timer).0 ≡ (suc r == period)) × (1 ≤ timer) × (timer ≤ period)
unfolding tick
tick_reads zero q r h = absurd (omega arith)
tick_reads (suc p) q r h = rw (timer_after_lem p q r h) (ground arith)
