-- ===== src/Convert/Pools.antt =====
-- The pools that the element activates (gst/nvmmconvert/gstnvmmconvert.cpp).
use gst_nvmm_cpp.Common.{
  ℕ, ◌≡◌, refl, List, [], ◌∷◌, Option, none, some, Bool, arith, ==_refl, Bool-cases, inl, inr,
}
use gst_nvmm_cpp.Convert.{
  VideoInfo, Convert, Property, init, set_property, set_caps, Query, drop_pool, decide_allocation,
  stop,
}

-- The calls that the base class makes, in any order.
pub data Call : Type 0 where
  sets : Property → Call
  negotiates : Option VideoInfo → Option VideoInfo → Bool → Call
  decides : Query → Call
  stops : Call

unfoldable pub after_call : Call → Convert × List ℕ → Convert × List ℕ
after_call (sets p) (s, active) = (set_property p s, active)
after_call (negotiates i o same) (s, active) = ((set_caps i o same s).1, active)
after_call (decides q) (s, active) = decide_allocation q s active
after_call stops (s, active) = stop s active

unfoldable pub after_calls : List Call → Convert × List ℕ → Convert × List ℕ
after_calls [] w = w
after_calls (c ∷ cs) w = after_calls cs (after_call c w)

abbrev pub own_pool : Option ℕ → List ℕ
own_pool none = []
own_pool (some p) = p ∷ []

drop_pool-own_pool : (o : Option ℕ) → drop_pool o (own_pool o) ≡ []
drop_pool-own_pool none = refl
drop_pool-own_pool (some p) = rw (==_refl p) refl

pool-set_property : (p : Property) (s : Convert) → (set_property p s).pool ≡ s.pool
unfolding set_property
pool-set_property p s = ground arith

pool-set_caps :
    (i o : Option VideoInfo) (same : Bool) (s : Convert) → (set_caps i o same s).1.pool ≡ s.pool
unfolding set_caps
pool-set_caps none o same s = refl
pool-set_caps (some i) none same s = refl
pool-set_caps (some i) (some o) same s = refl

after_call-pools :
    (c : Call) (s : Convert) (active : List ℕ)
    → active ≡ own_pool s.pool
    → let (s', active') = after_call c (s, active) in active' ≡ own_pool s'.pool
unfolding after_call decide_allocation stop
after_call-pools (sets p) s active h = rw (pool-set_property p s) h
after_call-pools (negotiates i o same) s active h = rw (pool-set_caps i o same s) h
after_call-pools (decides q) s active h = elim (Bool-cases s.passthrough) [
  | inl e ↦ rw e h
  | inr e ↦ rw (e, h, drop_pool-own_pool s.pool) refl
]
after_call-pools stops s active h = rw (h, drop_pool-own_pool s.pool) refl

pools_from :
    (cs : List Call) (s : Convert) (active : List ℕ)
    → active ≡ own_pool s.pool
    → let (s', active') = after_calls cs (s, active) in active' ≡ own_pool s'.pool
unfolding after_calls
pools_from [] s active h = h
pools_from (c ∷ cs) s active h =
    pools_from cs (after_call c (s, active)).0 (after_call c (s, active)).1
      (after_call-pools c s active h)

-- After any calls on a new element, in any order, the active pools are the one that the element holds, if it
-- holds one, and no other.
pub after_calls-own_pool :
    (cs : List Call) → let (s, active) = after_calls cs (init, []) in active ≡ own_pool s.pool
after_calls-own_pool cs = pools_from cs init [] refl
