-- ===== src/Memory/Pending/Counts.antt =====
-- The loading flag and the counter over calls and replies in any order.
use pairion_client.Base.{
  ℕ, zero, suc, ◌+◌, ◌-◌, ◌≡◌, refl, sym, ◌∙◌, ap, subst, Bool, true, false, not, ◌&&◌, List, [],
  ◌∷◌, ◌++◌, arith, ltb, ◌==◌, if◌then◌else◌, length, length-append,
}
use pairion_client.Qt.{Qt}
use pairion_client.Memory.{Request, fetch_episodes, fetch_preferences, Browser, Dates, refresh, new}
use pairion_client.Memory.Pending.{
  on_received, Step, refreshes, selects, clears, answered, fails, Reach, here, next, Ledger, ledger,
  counted_off, ledger-refresh, ledger-select_episode, ledger-clear_selection, ledger-on_received,
  ledger-on_fetch_error,
}

-- The flag is up exactly while the counter is not zero, and no more is counted than is in flight.
abbrev Counted : Ledger → Type 0
Counted (loading, (pending, requests)) =
    (loading ≡ not (pending == 0)) × (ltb (length requests) pending ≡ false)

-- Everything in flight is counted.
abbrev Exact : Ledger → Type 0
Exact (loading, (pending, requests)) = pending ≡ length requests

length-removed :
    (before after requests : List Request) (r : Request)
    → requests ≡ before ++ (r ∷ after)
    → length requests ≡ suc (length (before ++ after))
length-removed before after requests r h =
    ap length h ∙ length-append before (r ∷ after) ∙ omega (arith, length-append before after)

one_less :
    (l : Bool) (p n k : ℕ)
    → n ≡ suc k
    → l ≡ not (p == 0)
    → ltb n p ≡ false
    → ((if p - 1 == 0 then false else l) ≡ not (p - 1 == 0)) × (ltb k (p - 1) ≡ false)
one_less l zero n k e h c = (refl, ground arith)
one_less l (suc zero) n k e h c = (refl, ground arith)
one_less l (suc (suc p)) n k e h c = (ground (arith, h), ground (arith, e, c))

counted_off-Counted :
    (b : Browser) (before after : List Request) (r : Request)
    → b.in_flight ≡ before ++ (r ∷ after)
    → Counted (ledger b)
    → Counted (counted_off (b.loading, (b.pending_requests, before ++ after)))
counted_off-Counted b before after r e (h, c) =
    one_less b.loading b.pending_requests (length b.in_flight) (length (before ++ after))
      (length-removed before after b.in_flight r e) h c

one_more : (p n : ℕ) → ltb n p ≡ false → (true ≡ not (p + 1 == 0)) × (ltb (suc n) (p + 1) ≡ false)
one_more p n c = (ground arith, ground (arith, c))

Step-Counted :
    {q : Qt} {dates : Dates} {b c : Browser}
    → Step q dates b c
    → Counted (ledger b)
    → Counted (ledger c)
Step-Counted (refreshes b) (h, c) = subst Counted (sym (ledger-refresh b)) (refl, ground arith)
Step-Counted (selects b id) (h, c) =
    subst Counted (sym (ledger-select_episode id b))
      (one_more b.pending_requests (length b.in_flight) c)
Step-Counted (clears b) v = subst Counted (sym (ledger-clear_selection b)) v
Step-Counted (answered b before after r arr e) v =
    subst Counted (sym (ledger-on_received _ _ r arr (record b { in_flight = before ++ after })))
      (counted_off-Counted b before after r e v)
Step-Counted (fails b before after r op msg e) v =
    subst Counted (sym (ledger-on_fetch_error op msg (record b { in_flight = before ++ after })))
      (counted_off-Counted b before after r e v)

Reach-Counted :
    {q : Qt} {dates : Dates} {b c : Browser}
    → Counted (ledger b)
    → Reach q dates b c
    → Counted (ledger c)
Reach-Counted v here = v
Reach-Counted v (next r s) = Step-Counted s (Reach-Counted v r)

-- After any calls of the panel and replies in any order: the model says that it loads exactly while
-- its counter is not zero, the counter is at most the number of requests in flight, and so the
-- model does not say that it loads when no request is in flight.
pub Reach-new-Counted :
    (q : Qt) (dates : Dates) (b : Browser)
    → Reach q dates new b
    → (b.loading ≡ not (b.pending_requests == 0))
      × (ltb (length b.in_flight) b.pending_requests ≡ false)
      × ((b.loading && (length b.in_flight == 0)) ≡ false)
Reach-new-Counted q dates b r =
    let (flag, count) = Reach-Counted (refl, refl) r in
    (flag, count, some_flight b.loading b.pending_requests (length b.in_flight) flag count)
  where
    some_flight :
        (l : Bool) (p n : ℕ) → l ≡ not (p == 0) → ltb n p ≡ false → (l && (n == 0)) ≡ false
    some_flight l p n h c = ground (arith, h, c)

-- A step that does not refresh while requests are in flight.
abbrev pub IsCalm : {q : Qt} {dates : Dates} {b c : Browser} → Step q dates b c → Type 0
IsCalm (refreshes b) = b.in_flight ≡ []
IsCalm _ = Unit {0}

pub data CalmReach (q : Qt) (dates : Dates) (b : Browser) : Browser → Type 0 where
  at_start : CalmReach q dates b b
  calm_step :
      {c d : Browser}
      → CalmReach q dates b c
      → (s : Step q dates c d) → IsCalm s
      → CalmReach q dates b d

counted_off-Exact :
    (b : Browser) (before after : List Request) (r : Request)
    → b.in_flight ≡ before ++ (r ∷ after)
    → Exact (ledger b)
    → Exact (counted_off (b.loading, (b.pending_requests, before ++ after)))
counted_off-Exact b before after r e h =
    ap (λ n. n - 1) (h ∙ length-removed before after b.in_flight r e) ∙ omega arith

Step-Exact :
    {q : Qt} {dates : Dates} {b c : Browser} (s : Step q dates b c)
    → IsCalm s
    → Exact (ledger b)
    → Exact (ledger c)
Step-Exact (refreshes b) k h =
    subst Exact (sym (ledger-refresh b)) (ap (λ l. suc (suc (length l))) (sym k))
Step-Exact (selects b id) k h =
    subst Exact (sym (ledger-select_episode id b)) (ap (λ n. n + 1) h ∙ omega arith)
Step-Exact (clears b) k h = subst Exact (sym (ledger-clear_selection b)) h
Step-Exact (answered b before after r arr e) k h =
    subst Exact (sym (ledger-on_received _ _ r arr (record b { in_flight = before ++ after })))
      (counted_off-Exact b before after r e h)
Step-Exact (fails b before after r op msg e) k h =
    subst Exact (sym (ledger-on_fetch_error op msg (record b { in_flight = before ++ after })))
      (counted_off-Exact b before after r e h)

CalmReach-Exact :
    {q : Qt} {dates : Dates} {b c : Browser}
    → Exact (ledger b)
    → CalmReach q dates b c
    → Exact (ledger c)
CalmReach-Exact h at_start = h
CalmReach-Exact h (calm_step r s k) = Step-Exact s k (CalmReach-Exact h r)

calm : {q : Qt} {dates : Dates} {b c : Browser} → CalmReach q dates b c → Reach q dates b c
calm at_start = here
calm (calm_step r s k) = next (calm r) s

-- As long as the panel refreshes only when no request is in flight, the counter is the number of
-- requests in flight, and the model says that it loads exactly while there is one.
pub CalmReach-new-Exact :
    (q : Qt) (dates : Dates) (b : Browser)
    → CalmReach q dates new b
    → (b.pending_requests ≡ length b.in_flight) × (b.loading ≡ not (length b.in_flight == 0))
CalmReach-new-Exact q dates b r =
    let exact = CalmReach-Exact refl r in
    let flag = (Reach-new-Counted q dates b (calm r)).0 in
    (exact, flag ∙ ap (λ n. not (n == 0)) exact)

-- A refresh forgets the requests in flight: when its own two requests are answered the model says
-- that it no longer loads, and the older requests are still in flight.
pub refresh_forgets :
    (q : Qt) (dates : Dates) (episodes preferences : List q.Value) (b : Browser)
    → let b1 = refresh b in
      let b2 =
        on_received q dates fetch_preferences preferences
          (record b1 { in_flight = fetch_episodes ∷ b.in_flight }) in
      let b3 =
        on_received q dates fetch_episodes episodes (record b2 { in_flight = b.in_flight }) in
      (b1.in_flight ≡ fetch_preferences ∷ (fetch_episodes ∷ b.in_flight))
      × (b3.loading ≡ false)
      × (b3.in_flight ≡ b.in_flight)
refresh_forgets q dates episodes preferences b =
    let b1 = record (refresh b) { in_flight = fetch_episodes ∷ b.in_flight } in
    let b2 = on_received q dates fetch_preferences preferences b1 in
    let b3 = record b2 { in_flight = b.in_flight } in
    let e1 = ledger-refresh b in
    let e2 = ledger-on_received q dates fetch_preferences preferences b1 in
    let e3 = ledger-on_received q dates fetch_episodes episodes b3 in
    let pending : b2.pending_requests ≡ 1 = ap (λ l. l.1.0) e2 ∙ ap (λ l. l.1.0 - 1) e1 in
    (
      ap (λ l. l.1.1) e1,
      ap (λ l. l.0) e3 ∙ ap (λ n. if n - 1 == 0 then false else b2.loading) pending,
      ap (λ l. l.1.1) e3,
    )
