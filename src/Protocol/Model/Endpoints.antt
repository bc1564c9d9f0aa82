-- ===== src/Protocol/Model/Endpoints.antt =====
-- server/src/protocol/model.rs: the endpoints of a node are those that its paths name.
use rs_matter_server.Prelude.{
  ℕ, ◌≡◌, ◌≤◌, ◌<◌, refl, ◌∙◌, ap, Bool, false, ◌||◌, Option, none, some, List, [], ◌∷◌, ◌==◌,
  nat_ord, any, All, arith,
}
use rs_matter_server.Prelude.Text.{Text}
use rs_matter_server.Prelude.Map.{keys}
use rs_matter_server.Protocol.Model.{
  AttributesData, insert_sorted, sort, dedup_after, dedup, endpoint_of, cons_some, parsed_endpoints,
  endpoints,
}

abbrev pub contains : ℕ → List ℕ → Bool
contains e xs = any (λ n. n == e) xs

abbrev pub names : ℕ → Option ℕ → Bool
names e none = false
names e (some n) = n == e

contains-insert_sorted :
    (e n : ℕ) (ns : List ℕ) → contains e (insert_sorted n ns) ≡ (n == e || contains e ns)
unfolding insert_sorted
contains-insert_sorted e n [] = refl
contains-insert_sorted e n (m ∷ ms) = ground (arith, contains-insert_sorted e n ms)

pub contains-sort : (e : ℕ) (ns : List ℕ) → contains e (sort ns) ≡ contains e ns
unfolding sort
contains-sort e [] = refl
contains-sort e (n ∷ ns) = rw (contains-insert_sorted e n (sort ns)) (rw (contains-sort e ns))

contains-dedup_after :
    (e n : ℕ) (ns : List ℕ) → (n == e || contains e (dedup_after n ns)) ≡ (n == e || contains e ns)
unfolding dedup_after
contains-dedup_after e n [] = refl
contains-dedup_after e n (m ∷ ms) = ground (arith, contains-dedup_after e m ms)

pub contains-dedup : (e : ℕ) (ns : List ℕ) → contains e (dedup ns) ≡ contains e ns
unfolding dedup
contains-dedup e [] = refl
contains-dedup e (n ∷ ns) = contains-dedup_after e n ns

contains-cons_some :
    (e : ℕ) (o : Option ℕ) (ns : List ℕ)
    → contains e (cons_some o ns) ≡ (names e o || contains e ns)
unfolding cons_some
contains-cons_some e none ns = refl
contains-cons_some e (some n) ns = refl

contains-parsed_endpoints :
    (e : ℕ) (paths : List Text)
    → contains e (parsed_endpoints paths) ≡ any (λ p. names e (endpoint_of p)) paths
unfolding parsed_endpoints
contains-parsed_endpoints e [] = refl
contains-parsed_endpoints e (p ∷ ps) =
    contains-cons_some e (endpoint_of p) (parsed_endpoints ps)
    ∙ ap (λ b. names e (endpoint_of p) || b) (contains-parsed_endpoints e ps)

-- An endpoint is listed exactly when some path of the node names it.
pub contains-endpoints :
    {N : Type 0} (e : ℕ) (attributes : AttributesData N)
    → contains e (endpoints attributes) ≡ any (λ p. names e (endpoint_of p)) (keys attributes)
unfolding endpoints
contains-endpoints e attributes =
    contains-dedup e (sort (parsed_endpoints (keys attributes)))
    ∙ contains-sort e (parsed_endpoints (keys attributes))
    ∙ contains-parsed_endpoints e (keys attributes)

-- Each element stands below the next.
abbrev pub IsIncreasing : List ℕ → Type 0
IsIncreasing [] = Unit
IsIncreasing (n ∷ ns) = All (λ m. n < m) ns × IsIncreasing ns

abbrev IsNonDecreasing : List ℕ → Type 0
IsNonDecreasing [] = Unit
IsNonDecreasing (n ∷ ns) = All (λ m. n ≤ m) ns × IsNonDecreasing ns

All-le_trans : (m n : ℕ) (ns : List ℕ) → m ≤ n → All (λ k. n ≤ k) ns → All (λ k. m ≤ k) ns
All-le_trans m n [] h a = tt
All-le_trans m n (k ∷ ks) h (p, a) = (omega arith, All-le_trans m n ks h a)

All-insert_sorted :
    (m n : ℕ) (ns : List ℕ) → m ≤ n → All (λ k. m ≤ k) ns → All (λ k. m ≤ k) (insert_sorted n ns)
unfolding insert_sorted
All-insert_sorted m n [] h a = (h, tt)
All-insert_sorted m n (k ∷ ks) h (p, a) = ground (arith, All-insert_sorted m n ks h a)

insert_sorted-IsNonDecreasing :
    (n : ℕ) (ns : List ℕ) → IsNonDecreasing ns → IsNonDecreasing (insert_sorted n ns)
unfolding insert_sorted
insert_sorted-IsNonDecreasing n [] h = (tt, tt)
insert_sorted-IsNonDecreasing n (m ∷ ms) (a, h) =
    ground
      (arith, insert_sorted-IsNonDecreasing n ms h, All-insert_sorted m n ms, All-le_trans n m ms)

sort-IsNonDecreasing : (ns : List ℕ) → IsNonDecreasing (sort ns)
unfolding sort
sort-IsNonDecreasing [] = tt
sort-IsNonDecreasing (n ∷ ns) = insert_sorted-IsNonDecreasing n (sort ns) (sort-IsNonDecreasing ns)

dedup_after-IsIncreasing :
    (n : ℕ) (ns : List ℕ)
    → All (λ m. n ≤ m) ns
    → IsNonDecreasing ns
    → All (λ m. n < m) (dedup_after n ns) × IsIncreasing (dedup_after n ns)
unfolding dedup_after
dedup_after-IsIncreasing n [] a h = (tt, tt)
dedup_after-IsIncreasing n (m ∷ ms) (p, a) (b, h) =
    ground (arith, dedup_after-IsIncreasing m ms b h, All-lt-trans n m (dedup_after m ms))
  where
    All-lt-trans : (m n : ℕ) (ns : List ℕ) → m < n → All (λ k. n < k) ns → All (λ k. m < k) ns
    All-lt-trans m n [] h a = tt
    All-lt-trans m n (k ∷ ks) h (p, a) = (omega arith, All-lt-trans m n ks h a)

pub dedup-IsIncreasing : (ns : List ℕ) → IsIncreasing (dedup (sort ns))
dedup-IsIncreasing ns = of (sort ns) (sort-IsNonDecreasing ns)
  where
    of : (ns : List ℕ) → IsNonDecreasing ns → IsIncreasing (dedup ns)
    of [] h = unfold dedup in tt
    of (n ∷ ns) (a, h) = unfold dedup in dedup_after-IsIncreasing n ns a h

-- The endpoints are listed in increasing order, each once.
pub endpoints-IsIncreasing :
    {N : Type 0} (attributes : AttributesData N) → IsIncreasing (endpoints attributes)
unfolding endpoints
endpoints-IsIncreasing attributes = dedup-IsIncreasing (parsed_endpoints (keys attributes))
