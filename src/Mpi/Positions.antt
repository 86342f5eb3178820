-- ===== src/Mpi/Positions.antt =====
-- The positions of the processes, as vectors of numbers, and their ranks
-- (alsfvm/include/alsfvm/mpi/cartesian).
use alsvinn.Base.{ℕ, zero, suc, ◌+◌, ◌*◌, ◌/◌, ◌%◌, ◌<◌, ◌≡◌, refl, sym, ◌∙◌, ap, arith}
use alsvinn.Base.Int.{ℤ, pos}
use alsvinn.Memory.Layout.{place-lt}
use alsvinn.Vec.{Vec3, vec3, comp, set_comp, map3}
use alsvinn.Mpi.Cartesian.{get_coordinates, get_rank_index}
use alsvinn.Mpi.Ranks.{
  rank-coordinates, get_coordinates-pos, get_rank_index-pos, coordinates_bounds,
}

-- Positions inside the arrangement, as vectors of numbers.
abbrev pub rank_of : Vec3 ℕ → Vec3 ℕ → ℕ
rank_of n c = c.x + c.y * n.x + c.z * n.x * n.y

abbrev pub IsInside : Vec3 ℕ → Vec3 ℕ → Type 0
IsInside n c = (c.x < n.x) × (c.y < n.y) × (c.z < n.z)

pub comp-pos : (c : Vec3 ℕ) (d : ℕ) → comp (map3 pos c) d ≡ pos (comp c d)
comp-pos c zero = refl
comp-pos c (suc zero) = refl
comp-pos c (suc (suc d)) = refl

pub set_comp-pos :
    (c : Vec3 ℕ) (d a : ℕ) → set_comp (map3 pos c) d (pos a) ≡ map3 pos (set_comp c d a)
set_comp-pos c zero a = refl
set_comp-pos c (suc zero) a = refl
set_comp-pos c (suc (suc d)) a = refl

pub comp-set_comp : (c : Vec3 ℕ) (d a : ℕ) → comp (set_comp c d a) d ≡ a
comp-set_comp c zero a = refl
comp-set_comp c (suc zero) a = refl
comp-set_comp c (suc (suc d)) a = refl

pub set_comp-back : (c : Vec3 ℕ) (d a : ℕ) → set_comp (set_comp c d a) d (comp c d) ≡ c
set_comp-back c zero a = refl
set_comp-back c (suc zero) a = refl
set_comp-back c (suc (suc d)) a = refl

pub IsInside-comp : (n c : Vec3 ℕ) (d : ℕ) → IsInside n c → comp c d < comp n d
IsInside-comp n c zero h = h.0
IsInside-comp n c (suc zero) h = h.1
IsInside-comp n c (suc (suc d)) h = h.2

pub IsInside-set_comp :
    (n c : Vec3 ℕ) (d a : ℕ) → IsInside n c → a < comp n d → IsInside n (set_comp c d a)
IsInside-set_comp n c zero a h k = (k, h.1, h.2)
IsInside-set_comp n c (suc zero) a h k = (h.0, k, h.2)
IsInside-set_comp n c (suc (suc d)) a h k = (h.0, h.1, k)

pub get_rank_index-map :
    (n c : Vec3 ℕ) → IsInside n c → get_rank_index (map3 pos c) (map3 pos n) ≡ pos (rank_of n c)
get_rank_index-map n c h = get_rank_index-pos n.x n.y n.z c.x c.y c.z h.0 h.1 h.2

pub rank_of-lt : (n c : Vec3 ℕ) → IsInside n c → rank_of n c < n.x * n.y * n.z
rank_of-lt n c h = omega (arith, place-lt n.x n.y n.z c.x c.y c.z h.0 h.1 h.2)

unfoldable pub coordinates : Vec3 ℕ → ℕ → Vec3 ℕ
coordinates n r = vec3 (r % n.x) (r / n.x % n.y) (r / (n.x * n.y))

pub get_coordinates-map :
    (n : Vec3 ℕ) (r : ℕ) → get_coordinates (pos r) (map3 pos n) ≡ map3 pos (coordinates n r)
unfolding coordinates
get_coordinates-map n r = get_coordinates-pos n.x n.y n.z r

pub coordinates-IsInside : (n : Vec3 ℕ) (r : ℕ) → r < n.x * n.y * n.z → IsInside n (coordinates n r)
unfolding coordinates
coordinates-IsInside n r h = coordinates_bounds n.x n.y n.z r h

ok_pos : (a b : ℕ) → pos a ≡ pos b → a ≡ b
ok_pos a b e = cc

pub rank_of-coordinates :
    (n : Vec3 ℕ) (r : ℕ) → r < n.x * n.y * n.z → rank_of n (coordinates n r) ≡ r
rank_of-coordinates n r h =
    let e = get_rank_index-map n (coordinates n r) (coordinates-IsInside n r h) in
    let f = (rank-coordinates n.x n.y n.z).0 r h in
    ok_pos _ _ (
      sym e
      ∙ ap (λ (t : Vec3 ℤ). get_rank_index t (map3 pos n)) (sym (get_coordinates-map n r))
      ∙ f)

pub coordinates-rank_of :
    (n c : Vec3 ℕ) → IsInside n c → get_coordinates (pos (rank_of n c)) (map3 pos n) ≡ map3 pos c
coordinates-rank_of n c h =
    ap (λ (t : ℤ). get_coordinates t (map3 pos n)) (sym (get_rank_index-map n c h))
    ∙ (rank-coordinates n.x n.y n.z).1 c.x c.y c.z h.0 h.1 h.2
