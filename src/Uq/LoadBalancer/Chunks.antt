-- ===== src/Uq/LoadBalancer/Chunks.antt =====
-- The samples of all processes together (alsuq/src/mpi/SimpleLoadBalancer.cpp).
use native.Mathlib.Nat.{mod-add-div', mod-lt, mul-le-mul, le_refl, mul_comm}
use alsvinn.Base.{
  ℕ, zero, suc, ◌+◌, ◌-◌, ◌*◌, ◌/◌, ◌%◌, ◌≤◌, ◌<◌, ◌≡◌, refl, sym, ◌∙◌, ap, arith, List, [], ◌∷◌,
  ◌++◌, length, take, drop, get_elem?, get_elem?_of_lt, take-append-drop, leb, false, ok, some,
  ==_refl,
}
use alsvinn.Memory.Layout.{row-injective}
use alsvinn.Vec.{Vec3}
use alsvinn.Uq.LoadBalancer.{SubConfiguration, Balance, collect, load_balance}

drop_more :
    (xs : List ℕ) (i : ℕ) (a : ℕ) → get_elem? xs i ≡ some a → drop i xs ≡ a ∷ drop (suc i) xs
drop_more [] i a h = cc
drop_more (x ∷ xs) zero a h = cc
drop_more (x ∷ xs) (suc i) a h = drop_more xs i a h

collect-chunk :
    (samples : List ℕ) (rounds i : ℕ)
    → i + rounds ≤ length samples
    → collect samples rounds i ≡ ok (take rounds (drop i samples))
unfolding collect
collect-chunk samples zero i h = refl
collect-chunk samples (suc rounds) i h =
    let (a, e) = get_elem?_of_lt samples i (omega arith) in
    let inside : leb (length samples) i ≡ false = ground arith in
    rw (collect-chunk samples rounds (suc i) (omega arith), inside, e, drop_more samples i a e) refl

unfoldable pub concat : List (List ℕ) → List ℕ
concat [] = []
concat (xs ∷ xss) = xs ++ concat xss

-- `m` chunks of `w` samples
chunks : ℕ → ℕ → List ℕ → List (List ℕ)
chunks zero w xs = []
chunks (suc m) w xs = take w xs ∷ chunks m w (drop w xs)

drop_nil : (a : ℕ) → drop {A = ℕ} a [] ≡ []
drop_nil zero = refl
drop_nil (suc a) = refl

drop-suc : (a b : ℕ) (x : ℕ) (xs : List ℕ) → a ≡ suc b → drop b xs ≡ drop a (x ∷ xs)
drop-suc a b x xs e = ap (λ (t : ℕ). drop t (x ∷ xs)) (sym e)

drop-drop : (a b : ℕ) (xs : List ℕ) → drop a (drop b xs) ≡ drop (b + a) xs
drop-drop a zero xs = ap (λ (t : ℕ). drop t xs) (omega arith)
drop-drop zero (suc b) [] = sym (drop_nil (suc b + 0))
drop-drop (suc a) (suc b) [] = sym (drop_nil (suc b + suc a))
drop-drop a (suc b) (x ∷ xs) = drop-drop a b xs ∙ drop-suc (suc b + a) (b + a) x xs (omega arith)

length-drop : (a : ℕ) (xs : List ℕ) → length (drop a xs) ≡ length xs - a
length-drop zero xs = omega arith
length-drop (suc a) [] = omega arith
length-drop (suc a) (x ∷ xs) = omega (arith, length-drop a xs)

times_suc : (w k : ℕ) → w + k * w ≡ suc k * w
times_suc w k = omega arith

get_elem?-chunks :
    (m w k : ℕ) (xs : List ℕ)
    → k < m
    → get_elem? (chunks m w xs) k ≡ some (take w (drop (k * w) xs))
unfolding chunks
get_elem?-chunks zero w k xs h = absurd (omega arith)
get_elem?-chunks (suc m) w zero xs h =
    let e : 0 ≡ 0 * w = omega arith in ap (λ (t : ℕ). some (take w (drop t xs))) e
get_elem?-chunks (suc m) w (suc k) xs h =
    get_elem?-chunks m w k (drop w xs) (omega arith)
    ∙ ap (λ (t : List ℕ). some (take w t)) (drop-drop (k * w) w xs)
    ∙ ap (λ (t : ℕ). some (take w (drop t xs))) (times_suc w k)

concat-chunks : (m w : ℕ) (xs : List ℕ) → length xs ≡ m * w → concat (chunks m w xs) ≡ xs
unfolding chunks concat
concat-chunks zero w [] h = refl
concat-chunks zero w (x ∷ xs) h = absurd (omega arith)
concat-chunks (suc m) w xs h =
    ap (λ (t : List ℕ). take w xs ++ t)
      (concat-chunks m w (drop w xs) (omega (arith, length-drop w xs)))
    ∙ take-append-drop w xs

length-chunks : (m w : ℕ) (xs : List ℕ) → length (chunks m w xs) ≡ m
unfolding chunks
length-chunks zero w xs = refl
length-chunks (suc m) w xs = ap suc (length-chunks m w (drop w xs))

chunk_end : (w m k l : ℕ) → k < m → w * m ≡ l → w * k + w ≤ l
chunk_end w m k l h e = omega (arith, mul-le-mul (le_refl w) h)

module _ (sub_rank : SubConfiguration → ℕ) (samples : List ℕ) (m : ℕ) (spatial : Vec3 ℕ) where
  abbrev per_sample : ℕ
  per_sample = spatial.x * spatial.y * spatial.z

  quotients : (n k s : ℕ) → s < n → ((k * n + s) % n ≡ s) × ((k * n + s) / n ≡ k)
  quotients n k s h =
      row-injective n ((k * n + s) % n) ((k * n + s) / n) s k (mod-lt (k * n + s) (omega arith)) h
        (omega (arith, mod-add-div' (k * n + s) n))

  chunk_of : ℕ → ℕ → Balance
  chunk_of k s = record {
    samples = take (length samples / m) (drop (length samples / m * k) samples);
    statistical = record { colour = s; key = k };
    spatial = record { colour = k; key = s };
  }

  load_balance-chunk :
      length samples % m ≡ 0
      → ((colour key : ℕ)
          → colour < per_sample
          → key < m
          → sub_rank record { colour = colour; key = key } ≡ key)
      → (k s : ℕ) → k < m
      → s < per_sample
      → load_balance sub_rank samples m spatial
          (m * spatial.x * spatial.y * spatial.z)
          (k * per_sample + s)
        ≡ ok (chunk_of k s)
  unfolding load_balance chunk_of
  load_balance-chunk even ranks k s hk hs =
      let (es, ek) = quotients per_sample k s hs in
      let w = length samples / m in
      rw
        (
          ==_refl (m * spatial.x * spatial.y * spatial.z),
          even,
          es,
          ek,
          ranks s k hs hk,
          collect-chunk samples w (w * k) (
              chunk_end w m k (length samples) hk (omega (arith, mod-add-div' (length samples) m))),
        )
        refl

  -- The samples are dealt out completely, in order, and each to one group: if the processes are
  -- m groups of x * y * z, m divides the number of samples, and the rank of a process in its
  -- statistical communicator is its key, then there are m lists that joined are the samples, and
  -- every process of group k gets the k-th of them.
  pub load_balance-concat :
      length samples % m ≡ 0
      → ((colour key : ℕ)
          → colour < per_sample
          → key < m
          → sub_rank record { colour = colour; key = key } ≡ key)
      → (parts : List (List ℕ)) × (length parts ≡ m)
        × (concat parts ≡ samples)
        × ((k s : ℕ)
            → k < m
            → s < per_sample
            → (b : Balance) × (load_balance sub_rank samples m spatial
                  (m * spatial.x * spatial.y * spatial.z)
                  (k * per_sample + s)
                ≡ ok b)
              × (get_elem? parts k ≡ some b.samples))
  unfolding load_balance chunk_of
  load_balance-concat even ranks =
      let w = length samples / m in
      (
        chunks m w samples,
        length-chunks m w samples,
        concat-chunks m w samples (omega (arith, mod-add-div' (length samples) m)),
        λ k s hk hs. (
          chunk_of k s,
          load_balance-chunk even ranks k s hk hs,
          get_elem?-chunks m w k samples hk
              ∙ ap (λ (t : ℕ). some (take w (drop t samples))) (mul_comm k w),
        ),
      )
