-- ===== src/Ata/Requests.antt =====
-- The request queue of ata.c against a list of at most ten requests, first in, first out.
use amaterasu.Base.{
  ℕ, zero, suc, ◌+◌, ◌-◌, ◌%◌, ◌≤◌, ◌<◌, ◌≡◌, ◌⊎◌, inl, inr, refl, ap, ◌∙◌, true, false, none, some,
  List, [], ◌∷◌, ◌++◌, ◌==◌, update, arith, eq_of_ne, eq_self,
}
use native.Mathlib.Decide.{ℕ_discrete}
use amaterasu.Ata.{
  Request, RequestQueue, ata_request_queue_push, ata_request_queue_pop, ata_request_queue_front,
}

-- `rounds` entries of the ring from index `i` on.
unfoldable pub entries : (rounds i : ℕ) → (ℕ → Request) → List Request
entries zero i body = []
entries (suc rounds) i body = body (i % 10) ∷ entries rounds (i + 1) body

-- The requests that wait, the oldest first.
abbrev pub requests : RequestQueue → List Request
requests q = entries q.size q.head_index q.queue_body

-- The head is an index of the array, and no more requests wait than fit.
abbrev pub IsRing : RequestQueue → Type 0
IsRing q = (q.head_index < 10) × (q.size ≤ 10)

entries-frame :
    (rounds i slot : ℕ) (body : ℕ → Request) (r : Request)
    → ((k : ℕ) → k < rounds → ((i + k) % 10 == slot) ≡ false)
    → entries rounds i (update body slot r) ≡ entries rounds i body
unfolding entries
entries-frame zero i slot body r out = refl
entries-frame (suc rounds) i slot body r out =
    let here : (i % 10 == slot) ≡ false = ground (arith, out 0) in
    rw (here, entries-frame rounds (i + 1) slot body r (λ k lt. ground (arith, out (k + 1))))

entries-append :
    (rounds i : ℕ) (body : ℕ → Request)
    → entries (rounds + 1) i body ≡ entries rounds i body ++ body ((i + rounds) % 10) ∷ []
unfolding entries
entries-append zero i body = let e : i + 0 ≡ i = omega arith in rw e
entries-append (suc rounds) i body =
    let shift : i + 1 + rounds ≡ i + suc rounds = omega arith in
    let more : suc rounds + 1 ≡ suc (rounds + 1) = omega arith in
    rw (← shift, more)
      (ap (λ (t : List Request). body (i % 10) ∷ t) (entries-append rounds (i + 1) body))

-- Only the index modulo the capacity matters.
entries-mod :
    (rounds i j : ℕ) (body : ℕ → Request)
    → i % 10 ≡ j % 10
    → entries rounds i body ≡ entries rounds j body
unfolding entries
entries-mod zero i j body e = refl
entries-mod (suc rounds) i j body e = rw (e, entries-mod rounds (i + 1) (j + 1) body (omega arith))

entries-none : (rounds i : ℕ) (body : ℕ → Request) → rounds ≡ 0 → entries rounds i body ≡ []
unfolding entries
entries-none zero i body e = refl
entries-none (suc rounds) i body e = absurd (omega arith)

entries-first :
    (rounds i : ℕ) (body : ℕ → Request)
    → 0 < rounds
    → entries rounds i body ≡ body (i % 10) ∷ entries (rounds - 1) (i + 1) body
unfolding entries
entries-first zero i body pos = absurd (omega arith)
entries-first (suc rounds) i body pos = let e : suc rounds - 1 ≡ rounds = omega arith in rw e

-- A request as `ATARequestQueuePush` fills it in.
abbrev pub new_request : (is_write lba size_of_bytes buffer process : ℕ) → Request
new_request is_write lba size_of_bytes buffer process = record {
  is_write = is_write;
  lba = lba;
  size_of_bytes = size_of_bytes;
  is_complete = 0;
  buffer = buffer;
  process = process;
}

-- On a queue with its head in the array and at most ten requests, `ATARequestQueuePush` refuses a full
-- queue with -1 and leaves it as it is; otherwise the request becomes the newest, the others stay in
-- their order, and it stands at the index returned, which lies in the array.
pub push-requests :
    (is_write lba size buffer process : ℕ) (q : RequestQueue)
    → IsRing q
    → let (index, q') = ata_request_queue_push is_write lba size buffer process q in
      let new = new_request is_write lba size buffer process in
      ((q.size ≡ 10) × (index ≡ none) × (q' ≡ q))
      ⊎ ((q.size < 10)
          × (requests q' ≡ requests q ++ new ∷ [])
          × IsRing q'
          × ((i : ℕ) × (index ≡ some i) × (i < 10) × (q'.queue_body i ≡ new)))
unfolding ata_request_queue_push
push-requests is_write lba size buffer process q v = elim (ℕ_discrete q.size 10) [
  | yes e ↦ inl (e, rw e, rw e)
  | no ne ↦ inr (
    omega (arith, v.1, ne),
    rw
        (
          eq_of_ne q.size 10 ne,
          entries-append q.size q.head_index (
              update q.queue_body ((q.head_index + q.size) % 10)
                (new_request is_write lba size buffer process)),
        )
        (rw
          (entries-frame q.size q.head_index ((q.head_index + q.size) % 10) q.queue_body
            (new_request is_write lba size buffer process)
            (λ k lt.
              eq_of_ne ((q.head_index + k) % 10) ((q.head_index + q.size) % 10)
                (λ e. omega (arith, v.0, v.1, lt, e))))
          (rw (eq_self ((q.head_index + q.size) % 10)))),
    rw (eq_of_ne q.size 10 ne) (v.0, omega (arith, v.1, ne)),
    (
      (q.head_index + q.size) % 10,
      rw (eq_of_ne q.size 10 ne),
      omega arith,
      rw (eq_of_ne q.size 10 ne, eq_self ((q.head_index + q.size) % 10)),
    ),
  )
]

abbrev pub dropped : List Request → List Request
dropped [] = []
dropped (r ∷ rs) = rs

-- On a queue with its head in the array and at most ten requests, `ATARequestQueuePop` drops the oldest
-- request, and leaves an empty queue empty.
pub pop-requests :
    (q : RequestQueue)
    → IsRing q
    → (requests (ata_request_queue_pop q) ≡ dropped (requests q)) × IsRing (ata_request_queue_pop q)
unfolding ata_request_queue_pop
pop-requests q v = elim (ℕ_discrete q.size 0) [
  | yes e ↦
      let b : (q.size == 0) ≡ true = ground arith in
      rw b (rw (entries-none q.size q.head_index q.queue_body e) refl, v)
  | no ne ↦ rw (eq_of_ne q.size 0 ne) (
    rw (entries-first q.size q.head_index q.queue_body (omega arith)) (
        entries-mod (q.size - 1) ((q.head_index + 1) % 10) (q.head_index + 1) q.queue_body
          (omega arith)),
    (omega arith, omega (arith, v.1)),
  )
]

-- `ATARequestQueueFront` is the oldest request, if there is one.
pub front-requests :
    (q : RequestQueue)
    → IsRing q
    → 0 < q.size
    → requests q ≡ ata_request_queue_front q ∷ dropped (requests q)
unfolding ata_request_queue_front
front-requests q v pos =
    let here : q.head_index % 10 ≡ q.head_index = omega (arith, v.0) in
    rw (entries-first q.size q.head_index q.queue_body pos, here)

-- The only request of a queue.
pub single-requests :
    (head : ℕ) (body : ℕ → Request)
    → head < 10
    → requests (record { head_index = head; size = 1; queue_body = body }) ≡ body head ∷ []
unfolding entries
single-requests head body lt = let at : head % 10 ≡ head = omega arith in rw at

pub one-requests :
    (head : ℕ) (body : ℕ → Request) (r : Request)
    → head < 10
    → requests (record { head_index = head; size = 1; queue_body = update body head r }) ≡ r ∷ []
one-requests head body r lt = single-requests head (update body head r) lt ∙ rw (eq_self head)
