-- ===== src/Boxes/Every.antt =====
-- Loops over boxes of cells whose rounds each settle their own cell.
use alsvinn.Base.{◌≢◌, Result, Gives, Gives-map, Gives-all}
use alsvinn.Base.Int.{ℤ}
use alsvinn.Vec.{Vec3}
use alsvinn.Boxes.{InBox, try_nest, try_nest-keep, try_nest-once}

module _ {ℓ κ} {S : Type ℓ} (P : S → Type κ) (At : Vec3 ℤ → S → Type κ) (lo hi : Vec3 ℤ) where
  -- The round keeps `P`, makes `At` true of its cell, and keeps it for the other cells of the box.
  abbrev pub Settles : Vec3 ℤ → S → S → Type κ
  Settles c s s' = P s' × At c s' × ((c' : Vec3 ℤ) → InBox lo hi c' → c ≢ c' → At c' s → At c' s')

  -- Where each round settles its cell, the loop settles all cells of the box.
  pub try_nest-every :
      (body : Vec3 ℤ → S → Result S)
      → ((c : Vec3 ℤ) → InBox lo hi c → (s : S) → P s → Gives (Settles c s) (body c s))
      → (s : S) → P s
      → Gives (λ s'. P s' × ((c : Vec3 ℤ) → InBox lo hi c → At c s')) (try_nest lo hi body s)
  try_nest-every body settles s p =
      Gives-map
        (Gives-all {I = (c : Vec3 ℤ) × InBox lo hi c}
          (try_nest-keep P body lo hi s
            (λ c at t known. Gives-map (settles c at t known) (λ t' q. q.0)) p)
          (λ (c, at).
            Gives-map
              (try_nest-once P (λ t. P t × At c t) body c lo hi s at
                (λ c' at' ne t known. Gives-map (settles c' at' t known) (λ t' q. q.0))
                (λ c' at' ne t (known, held).
                  Gives-map (settles c' at' t known)
                    λ t' (known', here, others). (known', others c at ne held))
                (λ t known.
                  Gives-map (settles c at t known) λ t' (known', here, others). (known', here))
                p)
              (λ t q. q.1)))
        (λ t (known, each). (known, λ c at. each (c, at)))
