-- ===== src/Relay/Connect/Backoff.antt =====
-- The waits between the attempts to connect: ThreadMain of src/Relay.cpp.
use euroscope_plugin_bridge.Prelude.{
  ℕ, zero, suc, ◌+◌, ◌*◌, ◌≤◌, Bool, false, List, [], ◌∷◌, ◌≡◌, refl, ap, ◌∙◌, arith, All, length,
  get_or, le→ltb, lt→ltb,
}
use euroscope_plugin_bridge.Relay.{Relay}
use euroscope_plugin_bridge.Relay.Connect.{
  Round, Attempt, next_backoff, first_backoff, back_off, thread_round, thread_rounds,
  connect_and_subscribe,
}

-- The wait that follows a failure, in hundreds of milliseconds, by the number of failures before it.
abbrev pub hundreds : ℕ → ℕ
hundreds n = get_or (10 ∷ 20 ∷ 40 ∷ 80 ∷ 160 ∷ 320 ∷ []) n 300

-- The same in milliseconds.
abbrev pub wait_after : ℕ → ℕ
wait_after n = 100 * hundreds n

-- The waits of failures in a row, of which `n` have been before.
unfoldable pub waits_from : ℕ → ℕ → List ℕ
waits_from n zero = []
waits_from n (suc failures) = wait_after n ∷ waits_from (suc n) failures

-- The round finds no connection, its attempt to make one fails, and the thread is not stopped.
pub record Fails (round : Round) : Type 0 where
  pub apart : round.is_connected ≡ false
  pub in_vain : (r : Relay) → (connect_and_subscribe round.attempt r).2 ≡ false
  pub goes_on : (waited : ℕ) → round.stops waited ≡ false

pub connect_and_subscribe-unreachable :
    (a : Attempt) (r : Relay) → a.connects ≡ false → (connect_and_subscribe a r).2 ≡ false
unfolding connect_and_subscribe
connect_and_subscribe-unreachable a r h = rw h refl

next_backoff_lem : (n : ℕ) → next_backoff (wait_after n) ≡ wait_after (suc n)
unfolding next_backoff
next_backoff_lem zero = refl
next_backoff_lem (suc zero) = refl
next_backoff_lem (suc (suc zero)) = refl
next_backoff_lem (suc (suc (suc zero))) = refl
next_backoff_lem (suc (suc (suc (suc zero)))) = refl
next_backoff_lem (suc (suc (suc (suc (suc zero))))) = refl
next_backoff_lem (suc (suc (suc (suc (suc (suc n)))))) = refl

-- Steps that are not stopped wait for the whole of a number of hundreds.
back_off-whole :
    (steps waited left ms : ℕ) (stops : ℕ → Bool)
    → ms ≡ waited + 100 * left
    → left ≤ steps
    → ((n : ℕ) → stops n ≡ false)
    → back_off steps stops waited ms ≡ ms
unfolding back_off
back_off-whole zero waited left ms stops e enough on = omega (arith, e, enough)
back_off-whole (suc steps) waited zero ms stops e enough on =
    rw (le→ltb waited ms (omega (arith, e))) (omega (arith, e))
back_off-whole (suc steps) waited (suc left) ms stops e enough on =
    rw (lt→ltb waited ms (omega (arith, e)), on waited)
      (back_off-whole steps (waited + 100) left ms stops (omega (arith, e)) (omega (arith, enough))
        on)

thread_round-Fails :
    (round : Round) (r : Relay) (n : ℕ)
    → Fails round
    → ((thread_round round (r, wait_after n)).0.1 ≡ wait_after (suc n))
      × ((thread_round round (r, wait_after n)).1 ≡ wait_after n)
unfolding thread_round
thread_round-Fails round r n h =
    rw (h.apart, h.in_vain r)
      (
        next_backoff_lem n,
        back_off-whole (wait_after n) 0 (hundreds n) (wait_after n) round.stops (omega arith)
            (omega arith) h.goes_on,
      )

rounds_from :
    (n : ℕ) (r : Relay) (rounds : List Round)
    → All Fails rounds
    → ((thread_rounds rounds (r, wait_after n)).0.1 ≡ wait_after (n + length rounds))
      × ((thread_rounds rounds (r, wait_after n)).1 ≡ waits_from n (length rounds))
unfolding thread_rounds waits_from
rounds_from n r [] h = (ap wait_after (omega arith), refl)
rounds_from n r (round ∷ rounds) (h, hs) =
    let next = (thread_round round (r, wait_after n)).0 in
    let (updated, slept) = thread_round-Fails round r n h in
    let (last, others) = rounds_from (suc n) next.0 rounds hs in
    let one_more : suc n + length rounds ≡ n + suc (length rounds) = omega arith in
    let from : ℕ → (Relay × ℕ) × List ℕ = λ ms. thread_rounds rounds (next.0, ms) in
    (
      ap (λ ms. (from ms).0.1) updated ∙ last ∙ ap wait_after one_more,
      ap (λ ms. ms ∷ (from next.1).1) slept
          ∙ ap (λ ms. wait_after n ∷ (from ms).1) updated
          ∙ ap (λ ws. wait_after n ∷ ws) others,
    )

-- In rounds that fail one after the other, from the first `backoffMs` on and while the thread is not
-- stopped, ThreadMain waits a second after the first failure, twice as long after each of the next five,
-- which comes to 32 seconds after the sixth, and 30 seconds after the seventh and every later one.
pub thread_rounds-backoff :
    (r : Relay) (rounds : List Round)
    → All Fails rounds
    → (thread_rounds rounds (r, first_backoff)).1 ≡ waits_from 0 (length rounds)
thread_rounds-backoff r rounds h = (rounds_from 0 r rounds h).1
