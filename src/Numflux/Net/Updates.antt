-- ===== src/Numflux/Net/Updates.antt =====
-- The second loop of `computeNetFlux` (alsfvm/src/numflux/NumericalFluxCPU.cpp).
use alsvinn.Base.{
  ℕ, ◌≡◌, ◌≢◌, refl, sym, subst, ◌∙◌, Result, Gives, Gives-all, Gives-map, get_elem?,
  get_elem?_of_lt, arith,
}
use alsvinn.Base.Int.{ℤ}
use alsvinn.Base.Real.{Real}
use alsvinn.Vec.{Vec3}
use alsvinn.Boxes.{InBox, try_nest, try_nest-keep, try_nest-once}
use alsvinn.Views.{
  Shape, Views, index, fetch, Fits, InBlock, IsSized, Holds, Wrote, index-lt, index-injective,
  add_to_view_at-Gives,
}
use alsvinn.Numflux.{Equation, Flux, lower, upper, negate, update_step}
use alsvinn.Numflux.Neighbours.{
  next, prev, next-prev, next-injective, InBox-prev, InBox-widen, InBox-narrow, InBox-next,
  InBox-back,
}
use alsvinn.Numflux.Net.{InRegion, SweepIsInside, net, IsNetFlux, HoldsFluxes}

module _ {R C A : Type 0} ⦃r : Real R⦄ (eq : Equation R C A) (flux : Flux R C A) (g : Shape)
    (fits : Fits g) (d : ℕ) (start end : Vec3 ℤ) (inside : SweepIsInside g d start end)
    (f : Vec3 ℤ → C) where
  module _ (temporary : Views C) (holds : HoldsFluxes eq flux g f d start end temporary) where
    update_step-Gives :
        (c : Vec3 ℤ)
        → InBox (prev d (lower g start)) (prev d (upper g end)) c
        → (old : C) (out : Views C) → IsSized g out
        → Holds g out (next d c) old
        → Gives
            (Wrote g out (index g (next d c)) (
              eq.plus old
                (eq.plus (negate eq flux (f (next d c))) (negate eq flux (negate eq flux (f c))))))
            (update_step eq flux d temporary g c out)
    unfolding update_step fetch
    update_step-Gives c at old out sized e =
        let ahead = InBox-next d _ _ c at in
        rw (holds.1 (next d c) ahead, holds.1 c (InBox-narrow d _ _ c at))
          (add_to_view_at-Gives g eq.plus out _ old _ sized (index-lt g fits _ (inside _ ahead)) e)

    update_step-any :
        (c : Vec3 ℤ)
        → InBox (prev d (lower g start)) (prev d (upper g end)) c
        → (out : Views C) → IsSized g out
        → Gives
            (λ out'. (v : C) × Wrote g out (index g (next d c)) v out')
            (update_step eq flux d temporary g c out)
    update_step-any c at out sized =
        let below = index-lt g fits _ (inside _ (InBox-next d _ _ c at)) in
        let (old, e) =
          get_elem?_of_lt out.cells (index g (next d c)) (omega (arith, below, sized.1)) in
        Gives-map (update_step-Gives c at old out sized e) (λ out' wrote. (_, wrote))

    pub update_sweep :
        (out : Views C)
        → IsSized g out
        → Gives (IsNetFlux eq flux g f d start end out) (
            try_nest
              (prev d (lower g start))
              (prev d (upper g end))
              (update_step eq flux d temporary g)
              out)
    update_sweep out sized =
        Gives-map
          (Gives-all {I = (j : ℕ) × ((c : Vec3 ℤ) → InRegion g start end c → index g c ≢ j)}
            (Gives-all {I = (c : Vec3 ℤ) × InRegion g start end c × (old : C) × Holds g out c old}
              (loop (λ t. Unit {0}) (λ c at t v t' known wrote. tt) tt)
              (λ (c, at, old, e). cell c at old e))
            (λ (j, apart). kept j apart))
          (λ t (((known, _), each), rest). record {
            sized = known;
            added = λ c at old e. each (c, at, old, e);
            kept = λ j apart. (rest (j, apart));
          })
      where
        lo : Vec3 ℤ
        lo = prev d (lower g start)

        hi : Vec3 ℤ
        hi = prev d (upper g end)

        body : Vec3 ℤ → Views C → Result (Views C)
        body = update_step eq flux d temporary g

        -- What one write keeps
        loop :
            (P : Views C → Type 0)
            → ((c : Vec3 ℤ)
                → InBox lo hi c
                → (t : Views C) (v : C) (t' : Views C) → P t
                → Wrote g t (index g (next d c)) v t'
                → P t')
            → P out
            → Gives (λ t. IsSized g t × P t) (try_nest lo hi body out)
        loop P keep p =
            try_nest-keep (λ t. IsSized g t × P t) body lo hi out
              (λ c at t (known, q).
                Gives-map (update_step-any c at t known)
                  (λ t' (v, wrote). (wrote.0, keep c at t v t' q wrote)))
              (sized, p)

        Added : Vec3 ℤ → C → Views C → Type 0
        Added c old t = IsSized g t × Holds g t c (eq.plus old (net eq flux f d c))

        Before : Vec3 ℤ → C → Views C → Type 0
        Before c old t = IsSized g t × Holds g t c old

        cell :
            (c : Vec3 ℤ)
            → InRegion g start end c
            → (old : C) → Holds g out c old
            → Gives
                (λ out'. Holds g out' c (eq.plus old (net eq flux f d c)))
                (try_nest lo hi body out)
        cell c at old e =
            Gives-map
              (try_nest-once (Before c old) (Added c old) body (prev d c) lo hi out
                (InBox-prev d _ _ c at) (λ c' at' ne t (known, q). others c' at' ne t old known q)
                (λ c' at' ne t (known, q). others c' at' ne t _ known q)
                (λ t (known, q).
                  Gives-map
                    (update_step-Gives (prev d c) (InBox-prev d _ _ c at) old t known
                      (subst (λ b. Holds g t b old) (sym back) q))
                    (λ t' wrote. (
                      wrote.0,
                      subst
                          (λ b. Holds g t' b (
                            eq.plus old (
                              eq.plus (negate eq flux (f b))
                                (negate eq flux (negate eq flux (f (prev d c)))))))
                          back wrote.1,
                    )))
                (sized, e))
              (λ t q. q.1)
          where
            back : next d (prev d c) ≡ c
            back = next-prev d c

            inside_c : InBlock g c
            inside_c = inside c (InBox-widen d _ _ c at)

            others :
                (c' : Vec3 ℤ)
                → InBox lo hi c'
                → c' ≢ prev d c
                → (t : Views C) (v : C) → IsSized g t
                → Holds g t c v
                → Gives (λ t'. IsSized g t' × Holds g t' c v) (body c' t)
            others c' at' ne t v known q =
                Gives-map (update_step-any c' at' t known) λ t' (a, wrote). (
                  wrote.0,
                  wrote.2 (index g c) (λ same. ne (
                        next-injective d c' (prev d c) (
                          index-injective g fits (next d c') c (inside _ (InBox-next d _ _ c' at'))
                            inside_c same
                          ∙ sym back)))
                      ∙ q,
                )

        kept :
            (j : ℕ)
            → ((c : Vec3 ℤ) → InRegion g start end c → index g c ≢ j)
            → Gives
                (λ out'. get_elem? out'.cells j ≡ get_elem? out.cells j)
                (try_nest lo hi body out)
        kept j apart =
            Gives-map
              (loop (λ t. get_elem? t.cells j ≡ get_elem? out.cells j)
                (λ c at t v t' q wrote. wrote.2 j (apart (next d c) (InBox-back d _ _ c at)) ∙ q)
                refl)
              (λ t q. q.1)
