-- ===== src/Prometheus/Cached.antt =====
-- packages/plugin-prometheus/src/index.ts: what the cache of the merged metrics serves.
use Prim.Native.String.{String}
use clusterkit.Common.{
  ◌≢◌, ℕ, ◌+◌, ◌<◌, ◌≡◌, refl, sym, ap, ◌∙◌, subst, Bool, true, false, ◌&&◌, Option, none, some,
  List, [], ◌∷◌, if◌then◌else◌, if_cases, ltb, arith,
}
use clusterkit.Prometheus.Cache.{
  Cache, Entry, cached, Event, scraped, invalidated, settled, merged, valid_entry, answered,
  join_or_collect, merged_metrics, clear_merged_metrics_cache, stored, settle, step, after,
}

-- What the last collection gave that settled since the last invalidation, and when.
unfoldable pub latest : List (ℕ × Event) → Option (ℕ × String)
latest [] = none
latest ((t, settled (some (orchestration, workers))) ∷ es) = some (t, merged orchestration workers)
latest ((t, settled none) ∷ es) = latest es
latest ((t, invalidated) ∷ es) = none
latest ((t, scraped) ∷ es) = latest es

unfoldable entry_of : ℕ → Option (ℕ × String) → Option Entry
entry_of ttl none = none
entry_of ttl (some (t, v)) =
    if ltb 0 ttl then some (record { value = v; expires_at = t + ttl }) else none

abbrev Holds : ℕ → Option (ℕ × String) → Cache → Type 0
Holds ttl o c = (c.ttl_ms ≡ ttl) × (c.merged_metrics_cache ≡ entry_of ttl o)

joined-Holds :
    (ttl : ℕ) (o : Option (ℕ × String)) (i : Option ℕ) (c : Cache)
    → Holds ttl o c
    → Holds ttl o (join_or_collect i c).1
unfolding join_or_collect
joined-Holds ttl o none c h = h
joined-Holds ttl o (some n) c h = h

scraped-Holds :
    (ttl : ℕ) (o : Option (ℕ × String)) (v : Option String) (c : Cache)
    → Holds ttl o c
    → Holds ttl o (answered v c).1
unfolding answered
scraped-Holds ttl o none c h = joined-Holds ttl o c.inflight_metrics c h
scraped-Holds ttl o (some v) c h = h

entry_on :
    (ttl t : ℕ) (v : String)
    → ltb 0 ttl ≡ true
    → entry_of ttl (some (t, v)) ≡ some (record { value = v; expires_at = t + ttl })
unfolding entry_of
entry_on ttl t v h =
    ap (λ (b : Bool). if b then some (record { value = v; expires_at = t + ttl }) else none) h

entry_off : (ttl : ℕ) (o : Option (ℕ × String)) → ltb 0 ttl ≡ false → entry_of ttl o ≡ none
unfolding entry_of
entry_off ttl none h = refl
entry_off ttl (some (t, v)) h =
    ap (λ (b : Bool). if b then some (record { value = v; expires_at = t + ttl }) else none) h

stored-Holds :
    (ttl t : ℕ) (p : String × String) (o : Option (ℕ × String)) (c : Cache)
    → Holds ttl o c
    → Holds ttl (some (t, merged p.0 p.1)) (stored t (some p) c)
unfolding stored
stored-Holds ttl t p o c h =
    let v = merged p.0 p.1 in
    if_cases (Holds ttl (some (t, v))) (ltb 0 c.ttl_ms) _ _
      (λ e. (
        h.0,
        ap (λ (k : ℕ). some (record { value = v; expires_at = t + k })) h.0
            ∙ sym (entry_on ttl t v (subst (λ (k : ℕ). ltb 0 k ≡ true) h.0 e)),
      ))
      (λ e.
        let off = subst (λ (k : ℕ). ltb 0 k ≡ false) h.0 e in
        (h.0, h.1 ∙ (entry_off ttl o off ∙ sym (entry_off ttl (some (t, v)) off))))

after-Holds : (ttl : ℕ) (es : List (ℕ × Event)) → Holds ttl (latest es) (after ttl es)
unfolding after step latest settle merged_metrics clear_merged_metrics_cache
after-Holds ttl [] = (refl, unfold entry_of in refl)
after-Holds ttl ((t, settled (some (a, b))) ∷ es) =
    stored-Holds ttl t (a, b) (latest es) (after ttl es) (after-Holds ttl es)
after-Holds ttl ((t, settled none) ∷ es) = unfold stored in after-Holds ttl es
after-Holds ttl ((t, invalidated) ∷ es) = ((after-Holds ttl es).0, unfold entry_of in refl)
after-Holds ttl ((t, scraped) ∷ es) =
    let c = after ttl es in
    scraped-Holds ttl (latest es) (valid_entry c.ttl_ms t c.merged_metrics_cache) c
      (after-Holds ttl es)

-- An answer from the cache is of an entry that is still valid.
joined_not : (i : Option ℕ) (v : String) (c : Cache) → (join_or_collect i c).0 ≢ cached v
unfolding join_or_collect
joined_not none v c h = cc
joined_not (some n) v c h = cc

answer_lem : (o : Option String) (v : String) (c : Cache) → (answered o c).0 ≡ cached v → o ≡ some v
unfolding answered
answer_lem none v c h = absurd (joined_not c.inflight_metrics v c h)
answer_lem (some u) v c h = cc

unexpired :
    (b : Bool) (now until : ℕ) (u v : String)
    → (if b && ltb now until then some u else none) ≡ some v
    → (u ≡ v) × (now < until)
unexpired true now until u v h = ground (arith, h)
unexpired false now until u v h = absurd (cc h)

abbrev shown : ℕ → String → Option (ℕ × String)
shown t v = some (t, v)

valid_lem :
    (ttl now : ℕ) (o : Option (ℕ × String)) (v : String)
    → valid_entry ttl now (entry_of ttl o) ≡ some v
    → (t : ℕ) × (o ≡ some (t, v)) × (now < t + ttl)
unfolding valid_entry entry_of
valid_lem ttl now none v h = absurd (cc h)
valid_lem ttl now (some (t, u)) v h =
    if_cases
      (λ (e : Option Entry).
        valid_entry ttl now e ≡ some v → (t' : ℕ) × (shown t u ≡ shown t' v) × (now < t' + ttl))
      (ltb 0 ttl) (some (record { value = u; expires_at = t + ttl })) none
      (λ _ h. let (e, l) = unexpired (ltb 0 ttl) now (t + ttl) u v h in (t, ap (shown t) e, l))
      (λ _ h. absurd (cc h)) h

-- A scrape that is answered from the cache gets the value of a collection that settled less than
-- the TTL before and since when no worker event has invalidated the cache: the last that settled.
pub served_fresh :
    (ttl now : ℕ) (es : List (ℕ × Event)) (v : String)
    → (merged_metrics now (after ttl es)).0 ≡ cached v
    → (t : ℕ) × (latest es ≡ some (t, v)) × (now < t + ttl)
unfolding merged_metrics
served_fresh ttl now es v h =
    let c = after ttl es in
    let k = after-Holds ttl es in
    valid_lem ttl now (latest es) v (
      (λ i. valid_entry (sym k.0 i) now (sym k.1 i))
      ∙ answer_lem (valid_entry c.ttl_ms now c.merged_metrics_cache) v c h)
