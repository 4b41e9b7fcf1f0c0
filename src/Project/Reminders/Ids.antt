-- ===== src/Project/Reminders/Ids.antt =====
-- crates/sica-core/src/project.rs: the ids of the active reminders.
use sica_rust.Prelude.{
  ℕ, Bool, true, false, Option, none, some, List, [], ◌∷◌, ◌++◌, any, if◌then◌else◌, ◌≡◌, refl, sym,
  arith, Bool-cases, inl, inr,
}
use sica_rust.Prelude.Str.{Str, str, str_eq, str_eq_iff}
use sica_rust.Prelude.Int.{ℤ}
use sica_rust.Log.{EventKind, schedule, SessionEvent}
use sica_rust.Project.Reminders.{
  ScheduleRecord, has_id, create_row, next_fire, dispatched, delete_row, dispatch_row,
  schedule_kind, schedules_from, schedules,
}

-- No two reminders under one id.
abbrev pub DistinctIds : List ScheduleRecord → Type 0
DistinctIds [] = Unit
DistinctIds (r ∷ out) = (any (has_id r.id) out ≡ false) × DistinctIds out

has_id-swap : (r s : ScheduleRecord) → has_id s.id r ≡ false → has_id r.id s ≡ false
has_id-swap r s h = elim (Bool-cases (has_id r.id s)) [
  | inl e ↦
      let same : s.id ≡ r.id = (str_eq_iff s.id r.id).0 e in
      let clash : has_id s.id r ≡ true = (str_eq_iff r.id s.id).1 (sym same) in
      ground (arith, clash, h)
  | inr e ↦ e
]

DistinctIds-add :
    (out : List ScheduleRecord) (r : ScheduleRecord)
    → any (has_id r.id) out ≡ false
    → DistinctIds out
    → DistinctIds (out ++ (r ∷ []))
DistinctIds-add [] r h k = (refl, tt)
DistinctIds-add (s ∷ out) r h k = (
  any-add out (has_id-swap s r (ground (arith, h))) k.0,
  DistinctIds-add out r (ground (arith, h)) k.1,
)
  where
    any-add :
        (xs : List ScheduleRecord)
        → has_id s.id r ≡ false
        → any (has_id s.id) xs ≡ false
        → any (has_id s.id) (xs ++ (r ∷ [])) ≡ false
    any-add [] e f = rw e refl
    any-add (x ∷ xs) e f = ground (arith, f, any-add xs e (ground (arith, f)))

any-delete_row :
    (p : ScheduleRecord → Bool) (id : Str) (out : List ScheduleRecord)
    → any p out ≡ false
    → any p (delete_row id out) ≡ false
any-delete_row p id [] h = refl
any-delete_row p id (r ∷ out) h = ground (arith, h, any-delete_row p id out (ground (arith, h)))

delete_row-DistinctIds :
    (id : Str) (out : List ScheduleRecord) → DistinctIds out → DistinctIds (delete_row id out)
delete_row-DistinctIds id [] h = tt
delete_row-DistinctIds id (r ∷ out) h = at (has_id id r) (delete_row-DistinctIds id out h.1)
  where
    at :
        (b : Bool)
        → DistinctIds (delete_row id out)
        → DistinctIds (if b then out else r ∷ delete_row id out)
    at true ih = h.1
    at false ih = (any-delete_row (has_id r.id) id out h.0, ih)

any-dispatch_row :
    (other id : Str) (at : Option ℤ) (out : List ScheduleRecord)
    → any (has_id other) out ≡ false
    → any (has_id other) (dispatch_row id at out) ≡ false
any-dispatch_row other id at [] h = refl
any-dispatch_row other id at (r ∷ out) h =
    here (has_id id r) (next_fire r r.every_seconds at)
      (any-dispatch_row other id at out (ground (arith, h)))
  where
    here :
        (b : Bool) (next : Option ℤ)
        → any (has_id other) (dispatch_row id at out) ≡ false
        → any (has_id other) (if b then dispatched r next ++ out else r ∷ dispatch_row id at out)
          ≡ false
    here true none ih = ground (arith, h)
    here true (some next) ih = h
    here false next ih = ground (arith, h, ih)

dispatch_row-DistinctIds :
    (id : Str) (at : Option ℤ) (out : List ScheduleRecord)
    → DistinctIds out
    → DistinctIds (dispatch_row id at out)
dispatch_row-DistinctIds id at [] h = tt
dispatch_row-DistinctIds id at (r ∷ out) h =
    here (has_id id r) (next_fire r r.every_seconds at) (dispatch_row-DistinctIds id at out h.1)
  where
    here :
        (b : Bool) (next : Option ℤ)
        → DistinctIds (dispatch_row id at out)
        → DistinctIds (if b then dispatched r next ++ out else r ∷ dispatch_row id at out)
    here true none ih = h.1
    here true (some next) ih = h
    here false next ih = (any-dispatch_row r.id id at out h.0, ih)

create_row-DistinctIds :
    (id : Str) (prompt rule : Option Str) (fire_at : Option ℤ) (every : Option ℕ)
    (out : List ScheduleRecord)
    → any (has_id id) out ≡ false
    → DistinctIds out
    → DistinctIds (create_row id prompt rule fire_at every out)
create_row-DistinctIds id (some prompt) (some rule) (some fire_at) every out h k =
    DistinctIds-add out
      (record {
        id = id;
        prompt = prompt;
        rule = rule;
        fire_at = fire_at;
        every_seconds = every;
        anchor = fire_at;
      })
      h k
create_row-DistinctIds id none rule fire_at every out h k = k
create_row-DistinctIds id (some _) none fire_at every out h k = k
create_row-DistinctIds id (some _) (some _) none every out h k = k

schedule_kind-DistinctIds :
    (k : EventKind) (out : List ScheduleRecord)
    → DistinctIds out
    → DistinctIds (schedule_kind k out)
schedule_kind-DistinctIds (schedule id op prompt rule fire_at after every accepted) out h =
    at (str_eq op (str "create")) (any (has_id id) out) (str_eq op (str "delete"))
      (str_eq op (str "dispatch")) refl
  where
    at :
        (create live delete dispatch : Bool)
        → any (has_id id) out ≡ live
        → DistinctIds (
            if create
            then (if live then out else create_row id prompt rule fire_at every out)
            else if delete
            then delete_row id out
            else if dispatch
            then dispatch_row id accepted out
            else out)
    at true true delete dispatch e = h
    at true false delete dispatch e = create_row-DistinctIds id prompt rule fire_at every out e h
    at false live true dispatch e = delete_row-DistinctIds id out h
    at false live false true e = dispatch_row-DistinctIds id accepted out h
    at false live false false e = h
schedule_kind-DistinctIds _ out h = h

schedules_from-DistinctIds :
    (events : List SessionEvent) (out : List ScheduleRecord)
    → DistinctIds out
    → DistinctIds (schedules_from out events)
unfolding schedules_from
schedules_from-DistinctIds [] out h = h
schedules_from-DistinctIds (ev ∷ events) out h =
    schedules_from-DistinctIds events (schedule_kind ev.kind out)
      (schedule_kind-DistinctIds ev.kind out h)

-- Whatever rows a log holds, torn ones included, no two active reminders have one id, so that a delete
-- or a dispatch names one of them at most.
pub schedules-DistinctIds : (events : List SessionEvent) → DistinctIds (schedules events)
unfolding schedules
schedules-DistinctIds events = schedules_from-DistinctIds events [] tt
