-- ===== src/Reconstruction/Sweeps.antt =====
-- The loop that every reconstruction of alsfvm/src/reconstruction makes: for each cell of a box it writes
-- one value to the left volume and one to the right.
use alsvinn.Base.{◌≢◌, ◌∙◌, Gives, gives, Gives-bind, Result, ok, ◌>>=◌}
use alsvinn.Base.Int.{ℤ}
use alsvinn.Vec.{Vec3}
use alsvinn.Boxes.{InBox, try_nest}
use alsvinn.Boxes.Every.{Settles, try_nest-every}
use alsvinn.Views.{
  Shape, Views, index, Fits, InBlock, IsSized, Holds, index-lt, index-injective, set_view_at,
  set_view_at-Gives,
}

module _ {C : Type 0} (g : Shape) (fits : Fits g) where
  abbrev pub AreSized : Views C × Views C → Type 0
  AreSized s = IsSized g s.0 × IsSized g s.1

  module _ (lo hi : Vec3 ℤ) (inside : (c : Vec3 ℤ) → InBox lo hi c → InBlock g c)
      (value : Vec3 ℤ → C × C) where
    abbrev pub AtCell : Vec3 ℤ → Views C × Views C → Type 0
    AtCell c s = Holds g s.0 c (value c).0 × Holds g s.1 c (value c).1

    abbrev pub Stored : Vec3 ℤ → Views C × Views C → Views C × Views C → Type 0
    Stored = Settles AreSized AtCell lo hi

    pub store-Stored :
        (c : Vec3 ℤ)
        → InBox lo hi c
        → (s : Views C × Views C) → AreSized s
        → Gives (Stored c s) (
            set_view_at s.0 (index g c) (value c).0 >>= λ left.
            set_view_at s.1 (index g c) (value c).1 >>= λ right. ok (left, right))
    store-Stored c at s (l, r) =
        let below = index-lt g fits c (inside c at) in
        Gives-bind (set_view_at-Gives g s.0 (index g c) _ l below) λ left wrote.
          Gives-bind (set_view_at-Gives g s.1 (index g c) _ r below) λ right wrote'. gives (
            (wrote.0, wrote'.0),
            (wrote.1, wrote'.1),
            λ c' at' ne (p, q).
                let apart : index g c ≢ index g c' =
                  λ e. ne (index-injective g fits c c' (inside c at) (inside c' at') e) in
                (wrote.2 (index g c') apart ∙ p, wrote'.2 (index g c') apart ∙ q),
          )

    pub sweep :
        (body : Vec3 ℤ → Views C × Views C → Result (Views C × Views C))
        → ((c : Vec3 ℤ)
            → InBox lo hi c
            → (s : Views C × Views C) → AreSized s
            → Gives (Stored c s) (body c s))
        → (s : Views C × Views C) → AreSized s
        → Gives
            (λ s'. AreSized s' × ((c : Vec3 ℤ) → InBox lo hi c → AtCell c s'))
            (try_nest lo hi body s)
    sweep = try_nest-every AreSized AtCell lo hi
