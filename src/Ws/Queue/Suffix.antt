-- ===== src/Ws/Queue/Suffix.antt =====
-- src/routes/ws/queue.rs: what a queue holds after any pushes.
use ovp_data_api.Base.{
  ℕ, ◌+◌, ◌-◌, ◌≤◌, ◌<◌, List, [], ◌∷◌, ◌++◌, length, length-append, drop, length-drop, drop-append,
  drop-drop, leb, ◌≡◌, arith, inl, inr, Bool-cases, ◌∙◌, sym,
}
use mathlib.Core.List.{append_assoc, append-nil}
use ovp_data_api.Events.{Event}
use ovp_data_api.Ws.Queue.{DropOldestQueue, new, push, u64_max}

-- The newest `n` elements.
abbrev pub newest {ℓ} : {A : Type ℓ} → ℕ → List A → List A
newest n xs = drop (length xs - n) xs

newest_all {ℓ} : {A : Type ℓ} (n : ℕ) (xs : List A) → length xs ≤ n → newest n xs ≡ xs
newest_all n xs h = let e : length xs - n ≡ 0 = omega arith in rw e

newest-append {ℓ} :
    {A : Type ℓ} (n : ℕ) (xs ys : List A) → newest n (newest n xs ++ ys) ≡ newest n (xs ++ ys)
newest-append n xs ys = elim (Bool-cases (leb (length xs) n)) [
  | inl few ↦ rw (newest_all n xs (ground arith))
  | inr many ↦
      let k : ℕ = length xs - n in
      let len : length (drop k xs ++ ys) - n ≡ length ys =
        ground (arith, length-append (drop k xs) ys, length-drop k xs) in
      let all : length (xs ++ ys) - n ≡ k + length ys = ground (arith, length-append xs ys) in
      let front : drop k (xs ++ ys) ≡ drop k xs ++ ys = drop-append k xs ys (omega arith) in
      rw (len, all) (rw (← drop-drop (length ys) k (xs ++ ys), front))
]

pub record IsBounded (q : DropOldestQueue) : Type 0 where
  pub room : 0 < q.cap
  pub fits : length q.inner ≤ q.cap

pub new-IsBounded : (cap : ℕ) → IsBounded (new cap)
unfolding new
new-IsBounded cap = ground arith

pub push-IsBounded : (q : DropOldestQueue) (e : Event) → IsBounded q → IsBounded (push q e).0
unfolding push
push-IsBounded q e b = ground (
  arith,
  length-append q.inner (e ∷ []),
  length-append (drop 1 q.inner) (e ∷ []),
  length-drop 1 q.inner,
)

unfoldable pub push_all : DropOldestQueue → List Event → DropOldestQueue
push_all q [] = q
push_all q (e ∷ es) = push_all (push q e).0 es

push-newest :
    (q : DropOldestQueue) (e : Event)
    → IsBounded q
    → (push q e).0.inner ≡ newest q.cap (q.inner ++ e ∷ [])
unfolding push
push-newest q e b = elim (Bool-cases (leb q.cap (length q.inner))) [
  | inl full ↦
      let one : length (q.inner ++ e ∷ []) - q.cap ≡ 1 =
        ground (arith, length-append q.inner (e ∷ [])) in
      rw (full, one) (sym (drop-append 1 q.inner (e ∷ []) (ground arith)))
  | inr room ↦
      rw room (
        sym (newest_all q.cap (q.inner ++ e ∷ []) (ground (arith, length-append q.inner (e ∷ [])))))
]

cap-push : (q : DropOldestQueue) (e : Event) → (push q e).0.cap ≡ q.cap
unfolding push
cap-push q e = ground arith

-- Whatever is pushed onto a well-formed queue, it holds the newest `cap` of the events that it held
-- and that were pushed, in order, and stays well formed.
pub push_all-newest :
    (q : DropOldestQueue) (es : List Event)
    → IsBounded q
    → ((push_all q es).inner ≡ newest q.cap (q.inner ++ es)) × IsBounded (push_all q es)
unfolding push_all
push_all-newest q [] b = (rw append-nil (sym (newest_all q.cap q.inner b.fits)), b)
push_all-newest q (e ∷ es) b =
    let (held, bounded) = push_all-newest (push q e).0 es (push-IsBounded q e b) in
    (
      held
          ∙ rw (cap-push q e, push-newest q e b, newest-append q.cap (q.inner ++ e ∷ []) es)
              (rw append_assoc),
      bounded,
    )

push_accounts :
    (q : DropOldestQueue) (e : Event)
    → IsBounded q
    → q.dropped + 1 ≤ u64_max
    → ((push q e).0.dropped + length (push q e).0.inner ≡ q.dropped + length q.inner + 1)
      × ((push q e).0.dropped ≤ q.dropped + 1)
unfolding push
push_accounts q e b h = ground (
  arith,
  length-append q.inner (e ∷ []),
  length-append (drop 1 q.inner) (e ∷ []),
  length-drop 1 q.inner,
)

-- Every event pushed is still held or counted as dropped, as long as the counter does not saturate.
pub push_all_accounts :
    (q : DropOldestQueue) (es : List Event)
    → IsBounded q
    → q.dropped + length es ≤ u64_max
    → (push_all q es).dropped + length (push_all q es).inner
      ≡ q.dropped + length q.inner + length es
unfolding push_all
push_all_accounts q [] b h = omega arith
push_all_accounts q (e ∷ es) b h =
    let (counted, grows) = push_accounts q e b (omega arith) in
    omega (arith, push_all_accounts (push q e).0 es (push-IsBounded q e b) (omega arith), counted)
