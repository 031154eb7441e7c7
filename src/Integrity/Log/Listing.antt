-- ===== src/Integrity/Log/Listing.antt =====
-- The order of the listed anomalies, and what resolving one changes.
use proof_stell_backend.Common.{
  ℕ, ◌+◌, ◌≤◌, ◌≡◌, refl, ◌∙◌, String, Bool, some, List, [], ◌∷◌, if◌then◌else◌, leb, ◌===◌, ◌&&◌,
  ◌||◌, not, length, filter, count, arith, All, Bool-cases, inl, inr,
}
use proof_stell_backend.Integrity.Report.{SessionAnomalyLog, IntegrityService}
use proof_stell_backend.Integrity.Log.{
  filter_by, insert_latest, sort_latest, get_anomalies, resolve_in, resolve_anomaly,
  get_integrity_stats,
}

-- No entry is followed by a later one.
abbrev pub IsLatestFirst : List SessionAnomalyLog → Type 0
IsLatestFirst [] = Unit
IsLatestFirst (a ∷ rest) =
    All (λ (b : SessionAnomalyLog). b.detected_at ≤ a.detected_at) rest × IsLatestFirst rest

module _ (p : SessionAnomalyLog → Bool) where
  count-insert_latest :
      (a : SessionAnomalyLog) (l : List SessionAnomalyLog)
      → count p (insert_latest a l) ≡ count p (a ∷ l)
  unfolding insert_latest
  count-insert_latest a [] = refl
  count-insert_latest a (b ∷ bs) = ground (arith, count-insert_latest a bs)

  count-sort_latest : (l : List SessionAnomalyLog) → count p (sort_latest l) ≡ count p l
  unfolding sort_latest
  count-sort_latest [] = refl
  count-sort_latest (a ∷ rest) =
      count-insert_latest a (sort_latest rest) ∙ ground (arith, count-sort_latest rest)

All-insert_latest :
    (n : ℕ) (a : SessionAnomalyLog) (l : List SessionAnomalyLog)
    → a.detected_at ≤ n
    → All (λ (b : SessionAnomalyLog). b.detected_at ≤ n) l
    → All (λ (b : SessionAnomalyLog). b.detected_at ≤ n) (insert_latest a l)
unfolding insert_latest
All-insert_latest n a [] h t = (h, tt)
All-insert_latest n a (b ∷ bs) h (hb, t) = elim (Bool-cases (leb b.detected_at a.detected_at)) [
  | inl e ↦ rw e (h, (hb, t))
  | inr e ↦ rw e (hb, All-insert_latest n a bs h t)
]

All-le :
    (m n : ℕ) (l : List SessionAnomalyLog)
    → m ≤ n
    → All (λ (b : SessionAnomalyLog). b.detected_at ≤ m) l
    → All (λ (b : SessionAnomalyLog). b.detected_at ≤ n) l
All-le m n [] h t = tt
All-le m n (b ∷ bs) h (hb, t) = (omega arith, All-le m n bs h t)

insert_latest-IsLatestFirst :
    (a : SessionAnomalyLog) (l : List SessionAnomalyLog)
    → IsLatestFirst l
    → IsLatestFirst (insert_latest a l)
unfolding insert_latest
insert_latest-IsLatestFirst a [] _ = (tt, tt)
insert_latest-IsLatestFirst a (b ∷ bs) (h, t) =
    elim (Bool-cases (leb b.detected_at a.detected_at)) [
      | inl e ↦
          let le : b.detected_at ≤ a.detected_at = ground (arith, e) in
          rw e ((le, All-le b.detected_at a.detected_at bs le h), (h, t))
      | inr e ↦ rw e (
        All-insert_latest b.detected_at a bs (ground (arith, e)) h,
        insert_latest-IsLatestFirst a bs t,
      )
    ]

sort_latest-IsLatestFirst : (l : List SessionAnomalyLog) → IsLatestFirst (sort_latest l)
unfolding sort_latest
sort_latest-IsLatestFirst [] = tt
sort_latest-IsLatestFirst (a ∷ rest) =
    insert_latest-IsLatestFirst a (sort_latest rest) (sort_latest-IsLatestFirst rest)

count-filter_by :
    (p : SessionAnomalyLog → Bool) (field : SessionAnomalyLog → String) (wanted : String)
    (l : List SessionAnomalyLog)
    → count p (filter_by field (some wanted) l)
      ≡ count (λ a. p a && (wanted === "" || field a === wanted)) l
count-filter_by p field wanted [] = ground arith
count-filter_by p field wanted (a ∷ rest) = ground (arith, count-filter_by p field wanted rest)

-- `getAnomalies` lists the latest anomaly first, and every test holds for as many of the listed
-- anomalies as it does of the logged ones of the wanted session and user.
pub get_anomalies-IsLatestFirst :
    (service : IntegrityService) (session user : String) (p : SessionAnomalyLog → Bool)
    → IsLatestFirst (get_anomalies service (some session) (some user))
      × (count p (get_anomalies service (some session) (some user))
          ≡ count
              (λ a.
                (p a && (user === "" || a.user_id === user))
                && (session === "" || a.session_id === session))
              service.anomaly_logs)
unfolding get_anomalies
get_anomalies-IsLatestFirst service session user p = (
  sort_latest-IsLatestFirst _,
  count-sort_latest p _
      ∙ count-filter_by p (λ a. a.user_id) user _
      ∙ count-filter_by _ (λ a. a.session_id) session service.anomaly_logs,
)

resolve_in-length :
    (l : List SessionAnomalyLog) (id notes : String) → length (resolve_in l id notes) ≡ length l
unfolding resolve_in
resolve_in-length [] id notes = refl
resolve_in-length (a ∷ rest) id notes = ground (arith, resolve_in-length rest id notes)

-- The anomaly with the id, if there is one that is not resolved yet: the first with the id counts.
abbrev pub open_with : String → List SessionAnomalyLog → ℕ
open_with id [] = 0
open_with id (a ∷ rest) =
    let later = open_with id rest in if a.id === id then (if a.resolved then 0 else 1) else later

resolve_in-unresolved :
    (l : List SessionAnomalyLog) (id notes : String)
    → length (filter (λ (a : SessionAnomalyLog). not a.resolved) (resolve_in l id notes))
        + open_with id l
      ≡ length (filter (λ (a : SessionAnomalyLog). not a.resolved) l)
unfolding resolve_in
resolve_in-unresolved [] id notes = refl
resolve_in-unresolved (a ∷ rest) id notes = ground (arith, resolve_in-unresolved rest id notes)

-- Resolving an anomaly leaves the numbers of sessions and anomalies as they are, and takes one off
-- the number of unresolved anomalies exactly if the log has the id and the anomaly was unresolved.
pub resolve_anomaly-stats :
    (service : IntegrityService) (id notes : String)
    → let before = get_integrity_stats service in
      let after = get_integrity_stats (resolve_anomaly service id notes) in
      (after.total_sessions ≡ before.total_sessions)
      × (after.total_anomalies ≡ before.total_anomalies)
      × (after.unresolved_anomalies + open_with id service.anomaly_logs
          ≡ before.unresolved_anomalies)
unfolding resolve_anomaly get_integrity_stats
resolve_anomaly-stats service id notes = (
  refl,
  resolve_in-length service.anomaly_logs id notes,
  resolve_in-unresolved service.anomaly_logs id notes,
)
