-- ===== src/ByteQueue/Iterate.antt =====
-- QUEUE_FOR_EACH and `QueueCopy` of array_queue.c: the loop ends at the first '\0' byte.
use network_layer_verificati.Prelude.{
  ℕ, zero, suc, ◌+◌, ◌≤◌, ◌<◌, ◌≡◌, refl, sym, ◌∙◌, ap, true, Option, some, List, [], ◌∷◌, ◌++◌,
  arith, ◌==◌, if◌then◌else◌, length, get_or, inl, inr, append-nil, append_assoc, length-append,
  until_nul, length-until_nul-le,
}
use network_layer_verificati.ByteQueue.{
  Queue, default_queue_capacity, queue_empty_element, wrap, queue_create, queue_get_first,
  queue_get_next, queue_items, queue_for_each, queue_fuel, enqueue_all, copy_into, queue_copy,
}
use network_layer_verificati.ByteQueue.Contents.{span, contents, IsRing, queue_create-IsRing}
use network_layer_verificati.ByteQueue.Refine.{enqueue_lem, length-contents}

cell : Queue → ℕ
cell q = get_or q.array (wrap (q.head + q.iterator)) 0

advanced : Queue → Queue
advanced q = record q { iterator = q.iterator + 1 }

get_next_inside :
    (q : Queue)
    → q.iterator + 1 < q.size
    → queue_get_next (some q) ≡ (cell (advanced q), some (advanced q))
unfolding queue_get_next cell advanced
get_next_inside q h = ground arith

get_next_end :
    (q : Queue) → q.size ≤ q.iterator + 1 → queue_get_next (some q) ≡ (queue_empty_element, some q)
unfolding queue_get_next
get_next_end q h = ground arith

items_end : (fuel : ℕ) (q : Option Queue) → queue_items fuel queue_empty_element q ≡ []
unfolding queue_items
items_end zero q = refl
items_end (suc fuel) q = refl

next_cell :
    (i k n : ℕ)
    → i < default_queue_capacity
    → n ≤ default_queue_capacity
    → k < n
    → wrap (wrap (i + k) + 1) ≡ wrap (i + (k + 1))
next_cell i k n h l p = ground arith

-- With the iterator on a cell, the loop has this cell and `n` more of the ring to read.
items-span :
    (fuel : ℕ) (q : Queue) (n : ℕ)
    → IsRing q
    → q.iterator + suc n ≡ q.size
    → n < fuel
    → queue_items fuel (cell q) (some q)
      ≡ until_nul (span q.array (wrap (q.head + q.iterator)) (suc n))
unfolding queue_items until_nul span cell advanced
items-span zero q n r e l = absurd (omega arith)
items-span (suc fuel) q zero r e l =
    rw (get_next_end q (omega arith))
      (ap (λ xs. if cell q == 0 then [] else cell q ∷ xs) (items_end fuel (some q)))
items-span (suc fuel) q (suc n) r e l = rw (get_next_inside q (omega arith)) (
    ap (λ xs. if cell q == 0 then [] else cell q ∷ xs)
      (items-span fuel (advanced q) n
          (record {
            head_below = r.head_below;
            size_fits = r.size_fits;
            array_full = r.array_full;
            tail_before = r.tail_before;
          })
          (omega arith) (omega arith)
        ∙ ap (λ j. until_nul (span q.array j (suc n)))
            (sym (next_cell q.head q.iterator q.size r.head_below r.size_fits (omega arith)))))

first_some :
    (q : Queue)
    → 0 < q.size
    → queue_get_first (some q) ≡ (get_or q.array q.head 0, some (record q { iterator = 0 }))
unfolding queue_get_first
first_some q h = ground arith

first_none : (q : Queue) → q.size ≡ 0 → queue_get_first (some q) ≡ (queue_empty_element, some q)
unfolding queue_get_first
first_none q e = ground arith

for_each_cases :
    (fuel : ℕ) (q : Queue) (n : ℕ)
    → IsRing q
    → q.size ≡ n
    → n < fuel
    → queue_for_each fuel (some q) ≡ until_nul (span q.array q.head n)
unfolding queue_for_each cell span until_nul
for_each_cases fuel q zero r e l =
    ap (λ t. queue_items fuel t.0 t.1) (first_none q e) ∙ (items_end fuel (some q) ∙ refl)
for_each_cases fuel q (suc n) r e l =
    let start : Queue = record q { iterator = 0 } in
    let here : wrap (q.head + 0) ≡ q.head = at_head q.head r.head_below in
    ap (λ t. queue_items fuel t.0 t.1) (first_some q (omega arith))
    ∙ (ap (λ j. queue_items fuel (get_or q.array j 0) (some start)) (sym here)
        ∙ items-span fuel start n
            (record {
              head_below = r.head_below;
              size_fits = r.size_fits;
              array_full = r.array_full;
              tail_before = r.tail_before;
            })
            (omega arith) (omega arith)
        ∙ ap (λ j. until_nul (span q.array j (suc n))) here)
  where
    at_head : (i : ℕ) → i < default_queue_capacity → wrap (i + 0) ≡ i
    at_head i h = ground arith

-- On a ring the body of QUEUE_FOR_EACH runs for the bytes of the queue, oldest first, that stand
-- in front of the first '\0', and for no other; more rounds than the queue has bytes are enough.
pub queue_for_each-contents :
    (fuel : ℕ) (q : Queue)
    → IsRing q
    → q.size < fuel
    → queue_for_each fuel (some q) ≡ until_nul (contents q)
unfolding contents
queue_for_each-contents fuel q r l = for_each_cases fuel q q.size r refl l

enqueue_all_room :
    (q : Queue) (xs : List ℕ)
    → IsRing q
    → q.size + length xs ≤ default_queue_capacity
    → (q' : Queue) × (enqueue_all (some q) xs ≡ some q')
      × IsRing q'
      × (contents q' ≡ contents q ++ xs)
unfolding enqueue_all
enqueue_all_room q [] r l = (q, refl, r, sym (append-nil (contents q)))
enqueue_all_room q (x ∷ xs) r l = elim (enqueue_lem q x r) [
  | inl (p, room, e, rp, c) ↦
      let (q', e', r', c') = enqueue_all_room p xs rp (fits p xs c) in
      (q', rw e e', r', c' ∙ (ap (λ t. t ++ xs) c ∙ append_assoc (contents q) (x ∷ []) xs))
  | inr (full, _) ↦ absurd (omega arith)
]
  where
    fits :
        (p : Queue) (ys : List ℕ)
        → contents p ≡ contents q ++ x ∷ []
        → p.size + length xs ≤ default_queue_capacity
    fits p ys c = omega (
      arith,
      ap length c,
      length-contents p,
      length-contents q,
      length-append (contents q) (x ∷ []),
    )

-- With memory for it, `QueueCopy` of a ring is a ring of the bytes in front of the first '\0'.
pub queue_copy-contents :
    (q : Queue)
    → IsRing q
    → (q' : Queue) × (queue_copy true (some q) ≡ some q')
      × IsRing q'
      × (contents q' ≡ until_nul (contents q))
unfolding queue_copy copy_into queue_create
queue_copy-contents q r =
    let (fresh, c) = queue_create-IsRing refl in
    let items = queue_for_each-contents queue_fuel q r (omega (arith, r.size_fits)) in
    let bound = length-until_nul-le (contents q) in
    let (q', e', r', c') =
      enqueue_all_room _ (until_nul (contents q)) fresh
        (omega (arith, r.size_fits, length-contents q, length-until_nul-le (contents q))) in
    (q', ap (enqueue_all _) items ∙ e', r', c' ∙ ap (λ t. t ++ until_nul (contents q)) c)
