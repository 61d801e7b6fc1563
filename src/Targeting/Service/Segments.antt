-- ===== src/Targeting/Service/Segments.antt =====
-- `CreateSegment` and the set of segments of a project.
use flagstack.Evaluation.SegmentSet.{validate_segment_set}
use flagstack.Targeting.Service.{
  evaluation_segment, service_create_segment, Environment, normalize_segment_input, as_invalid,
}
use flagstack.Targeting.Repository.{
  list_segments, create_segment, Store, segment_of, parse_project_scope, new_segment,
}
use flagstack.Targeting.Types.{
  Segment, SegmentInput, Database, project_not_found, segment_key_conflict,
}
use flagstack.Common.{
  [], ◌∷◌, ◌++◌, ◌==◌, ◌&&◌, ◌||◌, ◌≡◌, inl, inr, ok, true, refl, String, Bool, List, map,
  Bool-cases, >>=-eq-ok, not, guard, ok-inj, sym, ap, ◌∙◌, subst, eq_refl, wrap-eq-ok, any, filter,
}

filter-append_one :
    {A : Type 0} (p : A → Bool) (xs : List A) (y : A)
    → p y ≡ true
    → filter p (xs ++ y ∷ []) ≡ filter p xs ++ y ∷ []
filter-append_one p [] y h = rw (h)
filter-append_one p (x ∷ xs) y h = elim (Bool-cases (p x)) [
  | inl is ↦ rw (is, filter-append_one p xs y h)
  | inr is ↦ rw (is, filter-append_one p xs y h)
]

map-append_one :
    {A : Type 0} {B : Type 0} (f : A → B) (xs : List A) (y : A)
    → map f (xs ++ y ∷ []) ≡ map f xs ++ f y ∷ []
map-append_one f [] y = refl
map-append_one f (x ∷ xs) y = rw (map-append_one f xs y)

-- A new row comes last in the list of its project's segments.
create_segment-listed :
    (st : Store) (id organisation project : String) (input : SegmentInput) (row : Segment)
    (db db' : Database) (existing : List Segment)
    → list_segments st organisation project db ≡ ok existing
    → create_segment st id organisation project input db ≡ ok (row, db')
    → (list_segments st organisation project db' ≡ ok (existing ++ row ∷ []))
      × (segment_of row ≡ evaluation_segment input)
unfolding list_segments create_segment
create_segment-listed st id organisation project input row db db' existing listed h =
    let (scope, a, h1) = >>=-eq-ok (parse_project_scope st organisation project) _ h in
    let (o, p) = scope in
    let mine = λ (s : Segment). s.organisation_id == o && s.project_id == p && not s.archived in
    let (_, _, h2) =
      >>=-eq-ok
        (guard (any (λ r. r.id == p && r.organisation_id == o && not r.archived) db.projects)
          project_not_found)
        _ h1 in
    let (_, _, h3) =
      >>=-eq-ok
        (guard
          (not (any (λ s. s.id == id || (s.project_id == p && s.key == input.key)) db.segments))
          segment_key_conflict)
        _ h2 in
    let new = ok-inj h3 in
    let row0 = new_segment id o p input in
    subst
      (λ x.
        (list_segments st organisation project x.1 ≡ ok (existing ++ x.0 ∷ []))
        × (segment_of x.0 ≡ evaluation_segment input))
      new
      (
        rw (a) (
            ap (λ l. ok l)
              (filter-append_one mine db.segments row0 (rw (eq_refl o, eq_refl p))
                ∙ ap (λ l. l ++ row0 ∷ []) (ok-inj (rw (a) at listed)))),
        refl,
      )

-- After `CreateSegment` has succeeded, the project's segments, as `ListSegments` returns them, pass
-- `ValidateSegmentSet`: no cycle, no duplicate key and no unknown reference is stored.
pub service_create_segment-valid :
    (env : Environment) (id organisation project : String) (input : SegmentInput) (row : Segment)
    (db db' : Database)
    → service_create_segment env id organisation project input db ≡ ok (row, db')
    → (segments : List Segment) × (list_segments env.store organisation project db' ≡ ok segments)
      × (validate_segment_set env.runtime env.order (map segment_of segments) ≡ ok tt)
unfolding service_create_segment
service_create_segment-valid env id organisation project input row db db' h =
    let (normalized, _, h1) = >>=-eq-ok (normalize_segment_input env input true) _ h in
    let (existing, listed, h2) = >>=-eq-ok (list_segments env.store organisation project db) _ h1 in
    let candidate = map segment_of existing ++ evaluation_segment normalized ∷ [] in
    let (_, set, h3) =
      >>=-eq-ok (as_invalid "conditions" (validate_segment_set env.runtime env.order candidate)) _
        h2 in
    let (now_listed, same) =
      create_segment-listed env.store id organisation project normalized row db db' existing listed
        h3 in
    (
      existing ++ row ∷ [],
      now_listed,
      subst (λ ss. validate_segment_set env.runtime env.order ss ≡ ok tt)
          (sym (
            map-append_one segment_of existing row
            ∙ ap (λ s. map segment_of existing ++ s ∷ []) same))
          (wrap-eq-ok _ _ set),
    )
