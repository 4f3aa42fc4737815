-- ===== src/Ws/Backoff.antt =====
-- The delays between reconnection attempts.
use pairion_client.Base.{ℕ, zero, suc, ◌+◌, ◌≡◌, refl, ◌∙◌, ap, none, some, arith, false}
use pairion_client.Qt.{Qt}
use pairion_client.Ws.{
  Client, get_elem?, backoff_index, reconnect_backoff_ms, current_backoff_ms, on_disconnected,
  on_reconnect_tick,
}

-- The delay in closed form.
abbrev pub delay : ℕ → ℕ
delay zero = 1000
delay (suc zero) = 1000
delay (suc (suc zero)) = 2000
delay (suc (suc (suc zero))) = 4000
delay (suc (suc (suc (suc zero)))) = 8000
delay (suc (suc (suc (suc (suc zero))))) = 15000
delay _ = 30000

-- The array is read in range at every attempt, and the delays are 1, 2, 4, 8, 15 and then always
-- 30 seconds.
pub current_backoff_ms-eq-delay :
    (attempt : ℕ)
    → (get_elem? reconnect_backoff_ms (backoff_index attempt) ≡ some (delay attempt))
      × (current_backoff_ms attempt ≡ delay attempt)
unfolding current_backoff_ms
current_backoff_ms-eq-delay zero = (refl, refl)
current_backoff_ms-eq-delay (suc zero) = (refl, refl)
current_backoff_ms-eq-delay (suc (suc zero)) = (refl, refl)
current_backoff_ms-eq-delay (suc (suc (suc zero))) = (refl, refl)
current_backoff_ms-eq-delay (suc (suc (suc (suc zero)))) = (refl, refl)
current_backoff_ms-eq-delay (suc (suc (suc (suc (suc zero))))) = (refl, refl)
current_backoff_ms-eq-delay (suc (suc (suc (suc (suc (suc n)))))) = (ground arith, ground arith)

-- One attempt to connect that fails: the loss is noticed, and the timer fires.
abbrev pub retry : {q : Qt} → Client q → Client q
retry c = on_reconnect_tick (record (on_disconnected c) { reconnect_timer = none })

abbrev pub retries : {q : Qt} → ℕ → Client q → Client q
retries zero c = c
retries (suc n) c = retries n (retry c)

retry-keeps :
    {q : Qt} (c : Client q)
    → c.intentional_disconnect ≡ false
    → ((retry c).reconnect_attempt ≡ c.reconnect_attempt + 1)
      × ((retry c).intentional_disconnect ≡ false)
unfolding on_disconnected on_reconnect_tick
retry-keeps c h = (ground arith, ground arith)

retries-keeps :
    {q : Qt} (n : ℕ) (c : Client q)
    → c.intentional_disconnect ≡ false
    → ((retries n c).reconnect_attempt ≡ c.reconnect_attempt + n)
      × ((retries n c).intentional_disconnect ≡ false)
retries-keeps zero c h = (omega arith, h)
retries-keeps (suc n) c h =
    let k = retry-keeps c h in
    let r = retries-keeps n (retry c) k.1 in (omega (arith, r.0, k.0), r.1)

-- The loss of a connection that the user did not end.
lost-timer :
    {q : Qt} (c : Client q)
    → c.intentional_disconnect ≡ false
    → ((on_disconnected c).reconnect_timer ≡ some (delay (c.reconnect_attempt + 1)))
      × ((on_disconnected c).reconnect_attempt ≡ c.reconnect_attempt + 1)
unfolding on_disconnected
lost-timer c h =
    (ground (arith, (current_backoff_ms-eq-delay (c.reconnect_attempt + 1)).1), ground arith)

-- If the user did not ask to disconnect, then after any number `n` of failures in a row the next
-- loss is attempt number `n + 1` from the count before, and schedules a retry with that attempt's
-- delay: the client never gives up.
pub retries-reconnect_timer :
    {q : Qt} (n : ℕ) (c : Client q)
    → c.intentional_disconnect ≡ false
    → let d = on_disconnected (retries n c) in
      (d.reconnect_timer ≡ some (delay (c.reconnect_attempt + n + 1)))
      × (d.reconnect_attempt ≡ c.reconnect_attempt + n + 1)
retries-reconnect_timer n c h =
    let k = retries-keeps n c h in
    let l = lost-timer (retries n c) k.1 in
    (l.0 ∙ ap (λ m. some (delay (m + 1))) k.0, l.1 ∙ ap (λ m. m + 1) k.0)
