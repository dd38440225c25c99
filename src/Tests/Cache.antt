-- ===== src/Tests/Cache.antt =====
-- gst/nvmmsecondaryinfer/secondary_cache.cpp at concrete inputs.
use gst_nvmm_cpp.Common.{◌+◌, ◌≡◌, refl, [], ◌∷◌, none, some, if◌then◌else◌, leb, ltb, ◌==◌, arith}
use gst_nvmm_cpp.Common.Int.{pos}
use gst_nvmm_cpp.SecondaryCache.{ClassResult, SecondaryCache, find, due, store, lookup, expire}
use gst_nvmm_cpp.SecondaryCache.Keys.{Distinct, looks_up, after_call, after_call-Distinct}
use gst_nvmm_cpp.SecondaryCache.Laws.{lookup-store, due-store, expire_lem, expire-lookup, kept}

abbrev red : ClassResult
red = record { class_id = pos 1; confidence = 9; label = b'r' ∷ [] }

abbrev blue : ClassResult
blue = record { class_id = pos 2; confidence = 8; label = b'b' ∷ [] }

-- Track 7 was inferred in frame 3, and track 9 in frame 5 and seen in frame 30.
abbrev two_tracks : SecondaryCache
two_tracks = record {
  params = record { infer_interval = 10; max_age = 20 };
  entries =
      (7, record { result = red; last_infer = 3; last_seen = 3 })
      ∷ (9, record { result = blue; last_infer = 5; last_seen = 30 })
      ∷ [];
}

two_tracks-Distinct : Distinct two_tracks.entries
two_tracks-Distinct = ((λ e. omega arith, tt), (tt, tt))

after_call-Distinct_run : Distinct (after_call two_tracks (looks_up 9 31)).entries
after_call-Distinct_run = after_call-Distinct two_tracks (looks_up 9 31) two_tracks-Distinct

lookup-store_run :
    (lookup (store two_tracks 7 blue 13) 9 14).0
    ≡ (if 7 == 9 then some blue else (lookup two_tracks 9 14).0)
lookup-store_run = lookup-store two_tracks 7 9 blue 13 14

due-store_run :
    due (store two_tracks 7 blue 13) 7 (13 + 10)
    ≡ (if 7 == 7 then leb 10 10 else due two_tracks 7 (13 + 10))
due-store_run = due-store two_tracks 7 7 blue 13 10 (omega arith)

expire_lem_run : find 7 (expire two_tracks 24).entries ≡ kept 20 24 (find 7 two_tracks.entries)
expire_lem_run = expire_lem two_tracks 24 7 two_tracks-Distinct

found : (lookup two_tracks 7 10).0 ≡ some red
unfolding lookup
found = refl

expire-lookup_run :
    (lookup (expire (lookup two_tracks 7 10).1 (10 + 15)) 7 (10 + 15)).0
    ≡ (if ltb 20 15 then none else some red)
expire-lookup_run = expire-lookup two_tracks 7 red 10 15 two_tracks-Distinct (omega arith) found

-- A track that was not looked up goes when its age passes the limit.
forgotten : (lookup (expire two_tracks 24) 7 24).0 ≡ none
unfolding lookup expire
forgotten = refl
