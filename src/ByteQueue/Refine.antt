-- ===== src/ByteQueue/Refine.antt =====
-- `enqueue` and `dequeue` of array_queue.c against a bounded first-in first-out queue.
use network_layer_verificati.Prelude.{
  ℕ, suc, ◌+◌, ◌-◌, ◌≤◌, ◌<◌, ◌≡◌, ◌≢◌, refl, sym, ◌∙◌, ap, ap₂, Bool, true, false, Option, none,
  some, List, [], ◌∷◌, ◌++◌, arith, ltb, if◌then◌else◌, length, get_or, set, length-set,
  get_or-set_self, ◌⊎◌, inl, inr,
}
use network_layer_verificati.ByteQueue.{
  Queue, default_queue_capacity, queue_empty_element, wrap, queue_create, enqueue, dequeue,
}
use network_layer_verificati.ByteQueue.Contents.{
  span, contents, IsRing, wrap-lt, length-span, span_snoc, span-set, queue_create-IsRing,
}

pushed : Queue → ℕ → Queue
pushed q x = record q {
  tail = wrap (q.tail + 1);
  array = set q.array (wrap (q.tail + 1)) x;
  size = q.size + 1;
}

enqueue_room :
    (q : Queue) (x : ℕ)
    → q.size < default_queue_capacity
    → enqueue (some q) x ≡ (true, some (pushed q x))
unfolding enqueue pushed
enqueue_room q x h = ground arith

slot_free :
    (i k n : ℕ)
    → i < default_queue_capacity
    → n < default_queue_capacity
    → k < n
    → wrap (i + k) ≢ wrap (i + n)
slot_free i k n h l p = ground arith

pushed-IsRing :
    (q : Queue) (x : ℕ) → q.size < default_queue_capacity → IsRing q → IsRing (pushed q x)
unfolding pushed
pushed-IsRing q x l r = ground (arith, length-set q.array (wrap (q.tail + 1)) x)

contents-pushed :
    (q : Queue) (x : ℕ)
    → q.size < default_queue_capacity
    → IsRing q
    → contents (pushed q x) ≡ contents q ++ x ∷ []
unfolding pushed contents
contents-pushed q x l r =
    let j = wrap (q.tail + 1) in
    let a = set q.array j x in
    let e : q.size + 1 ≡ suc q.size = omega arith in
    ap (span a q.head) e
    ∙ (span_snoc a q.head q.size r.head_below l
        ∙ ap₂ (λ s y. s ++ y ∷ [])
            (span-set q.array q.head q.size j x r.head_below r.size_fits
              (λ k p. rw r.tail_before (slot_free q.head k q.size r.head_below l p)))
            (ap (λ i. get_or a i 0) (sym r.tail_before)
              ∙ get_or-set_self q.array j x 0 (
                  rw (r.tail_before, r.array_full)
                    (wrap-lt q.head q.size r.head_below r.size_fits))))

-- `enqueue` appends the byte where there is room, and refuses it and changes nothing in a full
-- ring; the result is a ring again.
pub enqueue_lem :
    (q : Queue) (x : ℕ)
    → IsRing q
    → ((q' : Queue) × (q.size < default_queue_capacity)
        × (enqueue (some q) x ≡ (true, some q'))
        × IsRing q'
        × (contents q' ≡ contents q ++ x ∷ []))
      ⊎ ((q.size ≡ default_queue_capacity) × (enqueue (some q) x ≡ (false, some q)))
unfolding enqueue
enqueue_lem q x r = elim (full_cases q.size r.size_fits) [
  | inl l ↦ inl (pushed q x, l, enqueue_room q x l, pushed-IsRing q x l r, contents-pushed q x l r)
  | inr e ↦ inr (e, ground arith)
]
  where
    full_cases :
        (n : ℕ)
        → n ≤ default_queue_capacity
        → (n < default_queue_capacity) ⊎ (n ≡ default_queue_capacity)
    full_cases n h = ground arith

popped : Queue → Queue
popped q = record q {
  array = set q.array q.head queue_empty_element;
  head = wrap (q.head + 1);
  size = q.size - 1;
}

dequeue-some :
    (q : Queue) → 0 < q.size → dequeue (some q) ≡ some (get_or q.array q.head 0, some (popped q))
unfolding dequeue popped
dequeue-some q h = ground arith

popped-IsRing : (q : Queue) → 0 < q.size → IsRing q → IsRing (popped q)
unfolding popped
popped-IsRing q l r = ground (arith, length-set q.array q.head queue_empty_element)

left_behind :
    (i k n : ℕ)
    → i < default_queue_capacity
    → n ≤ default_queue_capacity
    → k + 1 < n
    → wrap (wrap (i + 1) + k) ≢ i
left_behind i k n h l p = ground arith

contents-popped :
    (q : Queue) → 0 < q.size → IsRing q → contents q ≡ get_or q.array q.head 0 ∷ contents (popped q)
unfolding popped contents
contents-popped q l r =
    let e : q.size ≡ suc (q.size - 1) = omega arith in
    let cell = get_or q.array q.head 0 in
    ap (span q.array q.head) e
    ∙ unfold span in
      ap (λ t. get_or q.array q.head 0 ∷ t)
        (sym (
          span-set q.array (wrap (q.head + 1)) (q.size - 1) q.head queue_empty_element
            (wrap-lt q.head 1 r.head_below (omega arith)) (omega (arith, r.size_fits))
            (λ k p. left_behind q.head k q.size r.head_below r.size_fits (omega arith))))

-- `dequeue` takes the oldest byte out of a ring that holds one, and gives '\0' and changes nothing
-- if there is none; the result is a ring again.
pub dequeue_lem :
    (q : Queue)
    → IsRing q
    → ((x : ℕ) × (q' : Queue) × (dequeue (some q) ≡ some (x, some q'))
        × IsRing q'
        × (contents q ≡ x ∷ contents q')
        × (q.size ≡ q'.size + 1))
      ⊎ ((contents q ≡ []) × (dequeue (some q) ≡ some (queue_empty_element, some q)))
unfolding dequeue contents
dequeue_lem q r = elim (size_cases q.size) [
  | inl l ↦ inl (
    get_or q.array q.head 0,
    popped q,
    dequeue-some q l,
    popped-IsRing q l r,
    contents-popped q l r,
    unfold popped in omega arith,
  )
  | inr e ↦ inr (ap (span q.array q.head) e ∙ unfold span in refl, ground arith)
]
  where
    size_cases : (n : ℕ) → (0 < n) ⊎ (n ≡ 0)
    size_cases n = ground arith

-- What a client can ask of a queue, and what it sees.
pub data Op : Type 0 where
  put : ℕ → Op
  get : Op

pub data Reply : Type 0 where
  accepted : Bool → Reply
  byte : ℕ → Reply

-- what is left of a queue
abbrev left_of : Option (ℕ × Option Queue) → Option Queue
left_of none = none
left_of (some (x, q)) = q

-- The calls end with the first that has no result.
abbrev replied : Option (ℕ × Option Queue) → List Reply → List Reply
replied none rest = []
replied (some (x, q)) rest = byte x ∷ rest

pub run : Option Queue → List Op → List Reply
run q [] = []
run q (put x ∷ ops) = accepted (enqueue q x).0 ∷ run (enqueue q x).1 ops
run q (get ∷ ops) = replied (dequeue q) (run (left_of (dequeue q)) ops)

abbrev push_spec : List ℕ → ℕ → Bool × List ℕ
push_spec xs x =
    if ltb (length xs) default_queue_capacity then (true, xs ++ x ∷ []) else (false, xs)

abbrev pop_spec : List ℕ → ℕ × List ℕ
pop_spec [] = (0, [])
pop_spec (x ∷ xs) = (x, xs)

-- the same calls on a plain list
pub run_spec : List ℕ → List Op → List Reply
run_spec xs [] = []
run_spec xs (put x ∷ ops) = accepted (push_spec xs x).0 ∷ run_spec (push_spec xs x).1 ops
run_spec xs (get ∷ ops) = byte (pop_spec xs).0 ∷ run_spec (pop_spec xs).1 ops

pub length-contents : (q : Queue) → length (contents q) ≡ q.size
unfolding contents
length-contents q = length-span q.array q.head q.size

push_spec_room :
    (xs : List ℕ) (x : ℕ)
    → length xs < default_queue_capacity
    → push_spec xs x ≡ (true, xs ++ x ∷ [])
push_spec_room xs x h = ground arith

push_spec_full :
    (xs : List ℕ) (x : ℕ) → length xs ≡ default_queue_capacity → push_spec xs x ≡ (false, xs)
push_spec_full xs x h = ground arith

run-run_spec : (q : Queue) (ops : List Op) → IsRing q → run (some q) ops ≡ run_spec (contents q) ops
unfolding run run_spec
run-run_spec q [] r = refl
run-run_spec q (put x ∷ ops) r = elim (enqueue_lem q x r) [
  | inl (q', l, e, r', c) ↦
      rw (e, push_spec_room (contents q) x (rw (length-contents q) l), ← c)
        (ap (◌∷◌ (accepted true)) (run-run_spec q' ops r'))
  | inr (l, e) ↦
      rw (e, push_spec_full (contents q) x (length-contents q ∙ l))
        (ap (◌∷◌ (accepted false)) (run-run_spec q ops r))
]
run-run_spec q (get ∷ ops) r = elim (dequeue_lem q r) [
  | inl (x, q', e, r', c, _) ↦ rw (e, c) (ap (◌∷◌ (byte x)) (run-run_spec q' ops r'))
  | inr (c, e) ↦ rw (e, c) (ap (◌∷◌ (byte 0)) (run-run_spec q ops r ∙ ap (λ xs. run_spec xs ops) c))
]

-- Any sequence of calls on a queue that `QueueCreate` allocated gives the replies of a
-- first-in first-out list of at most 8192 bytes that starts empty.
pub run-queue_create : (ops : List Op) → run (queue_create true) ops ≡ run_spec [] ops
unfolding queue_create
run-queue_create ops =
    let (r, c) = queue_create-IsRing refl in run-run_spec _ ops r ∙ ap (λ xs. run_spec xs ops) c
