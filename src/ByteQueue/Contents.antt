-- ===== src/ByteQueue/Contents.antt =====
-- The bytes that a ring of array_queue.c holds, oldest first, and its invariant.
use network_layer_verificati.Prelude.{
  ℕ, zero, suc, ◌+◌, ◌≤◌, ◌<◌, ◌≡◌, ◌≢◌, refl, sym, ◌∙◌, ap, ap₂, some, true, List, [], ◌∷◌, ◌++◌,
  arith, length, get_or, set, length-replicate, get_or-set_ne,
}
use network_layer_verificati.ByteQueue.{
  Queue, default_queue_capacity, queue_empty_element, wrap, queue_create,
}

-- `n` cells of the ring from index `i` on
unfoldable pub span : List ℕ → ℕ → ℕ → List ℕ
span a i zero = []
span a i (suc n) = get_or a i 0 ∷ span a (wrap (i + 1)) n

-- the queue as a list
unfoldable pub contents : Queue → List ℕ
contents q = span q.array q.head q.size

pub record IsRing (q : Queue) : Type 0 where
  pub head_below : q.head < default_queue_capacity
  pub size_fits : q.size ≤ default_queue_capacity
  pub array_full : length q.array ≡ default_queue_capacity
  pub tail_before : wrap (q.tail + 1) ≡ wrap (q.head + q.size)

-- an index `n` cells after `i`, for an `i` in the ring
pub wrap-lt :
    (i n : ℕ)
    → i < default_queue_capacity
    → n ≤ default_queue_capacity
    → wrap (i + n) < default_queue_capacity
wrap-lt i n h k = ground arith

wrap-wrap :
    (i n : ℕ)
    → i < default_queue_capacity
    → n < default_queue_capacity
    → wrap (wrap (i + 1) + n) ≡ wrap (i + suc n)
wrap-wrap i n h k = ground arith

wrap-ne :
    (i k : ℕ) → i < default_queue_capacity → 0 < k → k < default_queue_capacity → wrap (i + k) ≢ i
wrap-ne i k h p l = ground arith

pub length-span : (a : List ℕ) (i n : ℕ) → length (span a i n) ≡ n
unfolding span
length-span a i zero = refl
length-span a i (suc n) = ap suc (length-span a (wrap (i + 1)) n)

-- The cell behind a span extends it.
pub span_snoc :
    (a : List ℕ) (i n : ℕ)
    → i < default_queue_capacity
    → n < default_queue_capacity
    → span a i (suc n) ≡ span a i n ++ get_or a (wrap (i + n)) 0 ∷ []
unfolding span
span_snoc a i zero h k = ap (λ j. get_or a j 0 ∷ []) (ground arith)
span_snoc a i (suc n) h k =
    ap (λ t. get_or a i 0 ∷ t)
      (span_snoc a (wrap (i + 1)) n (wrap-lt i 1 h (omega arith)) (omega arith)
        ∙ ap (λ j. span a (wrap (i + 1)) n ++ get_or a j 0 ∷ []) (wrap-wrap i n h (omega arith)))

-- A write outside a span leaves it.
pub span-set :
    (a : List ℕ) (i n j v : ℕ)
    → i < default_queue_capacity
    → n ≤ default_queue_capacity
    → ((k : ℕ) → k < n → wrap (i + k) ≢ j)
    → span (set a j v) i n ≡ span a i n
unfolding span
span-set a i zero j v h k ne = refl
span-set a i (suc n) j v h k ne =
    ap₂ ◌∷◌ (get_or-set_ne a j i v 0 (λ e. ne 0 (omega arith) (ground arith))) (
      span-set a (wrap (i + 1)) n j v (wrap-lt i 1 h (omega arith)) (omega arith)
        (λ k' l e. ne (suc k') (omega arith) (sym (wrap-wrap i k' h (omega arith)) ∙ e)))

-- `get_or` in a span
pub get_or-span :
    (a : List ℕ) (i n k : ℕ)
    → i < default_queue_capacity
    → n ≤ default_queue_capacity
    → k < n
    → get_or (span a i n) k 0 ≡ get_or a (wrap (i + k)) 0
unfolding span
get_or-span a i zero k h l p = absurd (omega arith)
get_or-span a i (suc n) zero h l p = ap (λ j. get_or a j 0) (ground arith)
get_or-span a i (suc n) (suc k) h l p =
    get_or-span a (wrap (i + 1)) n k (wrap-lt i 1 h (omega arith)) (omega arith) (omega arith)
    ∙ ap (λ j. get_or a j 0) (wrap-wrap i k h (omega arith))

-- A new queue is a ring with no byte in it.
pub queue_create-IsRing : {q : Queue} → queue_create true ≡ some q → IsRing q × (contents q ≡ [])
unfolding queue_create contents span
queue_create-IsRing h = ground (arith, length-replicate default_queue_capacity queue_empty_element)
