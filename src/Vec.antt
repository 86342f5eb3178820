-- ===== src/Vec.antt =====
-- alsutils/include/alsutils/vec3.hpp and vec6.hpp: small vectors with named components, componentwise
-- operators, and access by index.
use alsvinn.Base.{ℕ, zero, suc, List, [], ◌∷◌}

pub record Vec3 (A : Type 0) : Type 0 where
  pub x : A
  pub y : A
  pub z : A

module _ {A : Type 0} where
  abbrev pub vec3 : A → A → A → Vec3 A
  vec3 a b c = record { x = a; y = b; z = c }

  -- `v[i]` for i < 3. The source reads past the vector for any other index.
  abbrev pub comp : Vec3 A → ℕ → A
  comp v zero = v.x
  comp v (suc zero) = v.y
  comp v (suc (suc _)) = v.z

  -- `v[i] = a` for i < 3
  abbrev pub set_comp : Vec3 A → ℕ → A → Vec3 A
  set_comp v zero a = record v { x = a }
  set_comp v (suc zero) a = record v { y = a }
  set_comp v (suc (suc _)) a = record v { z = a }

  -- `toStdVector`
  unfoldable pub to_list : Vec3 A → List A
  to_list v = v.x ∷ v.y ∷ v.z ∷ []

-- The componentwise operators `+`, `-`, `*` and `/`, and those with a scalar.
abbrev pub zip3 : {A B C : Type 0} → (A → B → C) → Vec3 A → Vec3 B → Vec3 C
zip3 op v w = vec3 (op v.x w.x) (op v.y w.y) (op v.z w.z)

abbrev pub map3 : {A B : Type 0} → (A → B) → Vec3 A → Vec3 B
map3 f v = vec3 (f v.x) (f v.y) (f v.z)

-- The dot product, with the sum and the product of the components' type.
unfoldable pub dot : {A : Type 0} → (A → A → A) → (A → A → A) → Vec3 A → Vec3 A → A
dot plus times v w = plus (plus (times v.x w.x) (times v.y w.y)) (times v.z w.z)

pub record Vec6 (A : Type 0) : Type 0 where
  pub x : A
  pub y : A
  pub z : A
  pub v : A
  pub w : A
  pub u : A

-- The constructor from six components, which leaves the last component 0.
unfoldable pub vec6 : {A : Type 0} → A → A → A → A → A → A → A → Vec6 A
vec6 nought a b c d e f = record { x = a; y = b; z = c; v = d; w = e; u = nought }

module _ {A : Type 0} where
  -- `v[i]` for i < 6
  abbrev pub comp6 : Vec6 A → ℕ → A
  comp6 s zero = s.x
  comp6 s (suc zero) = s.y
  comp6 s (suc (suc zero)) = s.z
  comp6 s (suc (suc (suc zero))) = s.v
  comp6 s (suc (suc (suc (suc zero)))) = s.w
  comp6 s (suc (suc (suc (suc (suc _))))) = s.u

  abbrev pub set_comp6 : Vec6 A → ℕ → A → Vec6 A
  set_comp6 s zero a = record s { x = a }
  set_comp6 s (suc zero) a = record s { y = a }
  set_comp6 s (suc (suc zero)) a = record s { z = a }
  set_comp6 s (suc (suc (suc zero))) a = record s { v = a }
  set_comp6 s (suc (suc (suc (suc zero)))) a = record s { w = a }
  set_comp6 s (suc (suc (suc (suc (suc _))))) a = record s { u = a }

  -- `{{a, a, a, a, a, a}}`
  abbrev pub all6 : A → Vec6 A
  all6 a = record { x = a; y = a; z = a; v = a; w = a; u = a }
