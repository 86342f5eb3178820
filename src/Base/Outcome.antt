-- ===== src/Base/Outcome.antt =====
-- Results of code that may throw, or leave defined behaviour.
use mathlib.Core.Path.{◌≡◌, refl, sym, subst}
use mathlib.Core.Bool.{Bool, true, false}
use mathlib.Core.Option.{Option, none, some}
use Prim.Native.Nat.{ℕ, zero, suc, ◌+◌, ◌≤◌, ◌<◌}
use mathlib.Core.List.{List, [], ◌∷◌}
use native.Mathlib.Omega.{arith}

-- The exceptions of the source, one constructor for each `THROW` that is modelled. `undefined` is no
-- exception: it marks undefined behaviour and failed assertions (a read or write outside an
-- allocation, a null pointer).
pub data Error : Type 0 where
  undefined : Error
  too_few_cells : Error
  unknown_boundary : Error
  unknown_platform : Error
  uneven_decomposition : ℕ → Error
  negative_neighbour : Error
  no_cuda : Error
  not_on_host : Error
  size_mismatch : Error
  variables_mismatch : Error
  unknown_variable : Error
  unsupported_direction : Error
  unsupported_ratio : Error
  constraints_violated : Error
  processors_mismatch : Error
  samples_not_divisible : Error
  balancing_failed : Error
  unknown_parameter : Error
  already_registered : Error
  unknown_class : Error
  component_too_high : Error
  one_dimension_only : Error
  unknown_generator : Error
  unknown_distribution : Error
  normal_unsupported : Error
  unsupported_structure : Error

pub data Result {ℓ} (A : Type ℓ) : Type ℓ where
  ok : A → Result A
  err : Error → Result A

-- A throw leaves out what follows it.
abbrev pub ◌>>=◌ {ℓ ℓ'} : {A : Type ℓ} {B : Type ℓ'} → Result A → (A → Result B) → Result B
err reason >>= next = err reason
ok value >>= next = next value

abbrev pub or_undefined {ℓ} : {A : Type ℓ} → Option A → Result A
or_undefined (some a) = ok a
or_undefined none = err undefined

-- `if (!test) THROW(reason)`
abbrev pub guard : (test : Bool) (reason : Error) → Result (Unit {0})
guard false reason = err reason
guard true reason = ok tt

-- A check before what follows.
abbrev pub ◌>>◌ {ℓ} : {C : Type ℓ} → Result (Unit {0}) → Result C → Result C
first >> second = first >>= λ done. second

infixl 5 ◌>>=◌ ◌>>◌
pub ok-injective {ℓ} : {C : Type ℓ} (x y : C) → ok x ≡ ok y → x ≡ y
ok-injective x y same = cc

-- The run ends normally, with a value that satisfies `P`.
pub data Gives {ℓ κ} {A : Type ℓ} (P : A → Type κ) : Result A → Type (ℓ ⊔ κ) where
  gives : {a : A} → P a → Gives P (ok a)

module _ {ℓ κ} {A : Type ℓ} {P : A → Type κ} where
  pub Gives-bind {ℓ' κ'} :
      {B : Type ℓ'} {Q : B → Type κ'} {r : Result A} {f : A → Result B}
      → Gives P r
      → ((a : A) → P a → Gives Q (f a))
      → Gives Q (r >>= f)
  Gives-bind (gives p) k = k _ p

  pub Gives-map {κ'} :
      {Q : A → Type κ'} {r : Result A} → Gives P r → ((a : A) → P a → Q a) → Gives Q r
  Gives-map (gives p) k = gives (k _ p)

  pub Gives-value : {r : Result A} → Gives P r → (a : A) × (r ≡ ok a) × P a
  Gives-value (gives {a = a} p) = (a, refl, p)

-- What the value of a run satisfies for each `i`, it satisfies for all of them.
pub Gives-all {ℓ κ ι κ'} :
    {A : Type ℓ} {P : A → Type κ} {I : Type ι} {Q : I → A → Type κ'} {r : Result A}
    → Gives P r
    → ((i : I) → Gives (Q i) r)
    → Gives (λ a. P a × ((i : I) → Q i a)) r
Gives-all {Q = Q} (gives {a = a} p) each =
    gives (
      p,
      λ i. let (b, same, q) = Gives-value (each i) in subst (Q i) (ok-injective b a (sym same)) q,
    )

-- If the run ends normally, its value satisfies `P`.
pub data IfOk {ℓ κ} {A : Type ℓ} (P : A → Type κ) : Result A → Type (ℓ ⊔ κ) where
  if_ok : {a : A} → P a → IfOk P (ok a)
  if_err : {e : Error} → IfOk P (err e)

module _ {ℓ} {A : Type ℓ} where
  pub IfOk-self : (m : Result A) → IfOk (λ a. m ≡ ok a) m
  IfOk-self (ok a) = if_ok refl
  IfOk-self (err e) = if_err

  pub IfOk-any : (m : Result A) → IfOk (λ _. Unit {0}) m
  IfOk-any (ok a) = if_ok tt
  IfOk-any (err e) = if_err

  pub IfOk-or_undefined : (o : Option A) → IfOk (λ a. o ≡ some a) (or_undefined o)
  IfOk-or_undefined (some a) = if_ok refl
  IfOk-or_undefined none = if_err

module _ {ℓ κ} {A : Type ℓ} {P : A → Type κ} where
  pub IfOk-value : {m : Result A} (a : A) → IfOk P m → m ≡ ok a → P a
  IfOk-value a (if_ok {a = b} p) e = subst P (ok-injective b a e) p
  IfOk-value a if_err e = cc

  pub IfOk-map {κ'} : {Q : A → Type κ'} {m : Result A} → IfOk P m → ((a : A) → P a → Q a) → IfOk Q m
  IfOk-map (if_ok p) k = if_ok (k _ p)
  IfOk-map if_err k = if_err

  pub IfOk-bind {ℓ' κ'} :
      {B : Type ℓ'} {Q : B → Type κ'} {m : Result A} {f : A → Result B}
      → IfOk P m
      → ((a : A) → P a → IfOk Q (f a))
      → IfOk Q (m >>= f)
  IfOk-bind (if_ok p) k = k _ p
  IfOk-bind if_err k = if_err

-- `for (i = start; i < start + rounds; ++i)` with a body that may fail
unfoldable pub try_range {ℓ} : {S : Type ℓ} → ℕ → ℕ → (ℕ → S → Result S) → S → Result S
try_range zero i body s = ok s
try_range (suc n) i body s = body i s >>= try_range n (suc i) body

pub try_range-Gives {ℓ κ} :
    {S : Type ℓ} (P : ℕ → S → Type κ) (stop : ℕ) (body : ℕ → S → Result S) (n i : ℕ) (s : S)
    → i + n ≡ stop
    → ((k : ℕ) (t : S) → i ≤ k → k < stop → P k t → Gives (P (suc k)) (body k t))
    → P i s
    → Gives (P stop) (try_range n i body s)
unfolding try_range
try_range-Gives P stop body zero i s e keep p = gives (subst (λ k. P k s) (omega arith) p)
try_range-Gives P stop body (suc n) i s e keep p =
    Gives-bind (keep i s (omega arith) (omega arith) p)
      λ t. try_range-Gives P stop body n (suc i) t (omega arith) (λ k u lo. keep k u (omega arith))

-- `for (a : items)` with a body that may fail
unfoldable pub try_each {ℓ κ} :
    {A : Type ℓ} {S : Type κ} → (A → S → Result S) → List A → S → Result S
try_each body [] s = ok s
try_each body (a ∷ as') s = body a s >>= try_each body as'

-- What every round keeps holds at the end of a loop that ends normally.
pub try_range-IfOk {ℓ κ} :
    {S : Type ℓ} (P : S → Type κ) (body : ℕ → S → Result S)
    → (n i : ℕ) (s : S) → ((k : ℕ) (t : S) → i ≤ k → P t → IfOk P (body k t))
    → P s
    → IfOk P (try_range n i body s)
unfolding try_range
try_range-IfOk P body zero i s keep p = if_ok p
try_range-IfOk P body (suc n) i s keep p =
    IfOk-bind (keep i s (omega arith) p)
      λ t q. try_range-IfOk P body n (suc i) t (λ k u lo. keep k u (omega arith)) q
