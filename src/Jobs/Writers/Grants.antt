-- ===== src/Jobs/Writers/Grants.antt =====
-- src/taskDispatch/writers/index.js: who is let in by a grant, and how many grants there are.
use granttap_relay.Prelude.{
  ℕ, ◌≤◌, ◌<◌, ◌≡◌, true, false, ◌&&◌, List, [], ◌∷◌, none, some, arith, if◌then◌else◌, length,
  length-append, filter, length-filter-le, find, subst, Text, text_eq→eq, Bool-cases, Option-cases,
  inl, inr,
}
use granttap_relay.Relay.Json.{Json}
use granttap_relay.Relay.Support.{constant_time_equal}
use granttap_relay.Jobs.Writers.{
  Grant, Writer, writer_limit, is_retained, has_id, get_writer, commit_writer_grant, put_grant,
  grant_of, Credential, is_usable, authorize,
}

commit_writer_grant-length :
    (id : Text) (grant : Grant) (now : ℕ) (rows : List Writer)
    → length rows ≤ writer_limit
    → length (commit_writer_grant id grant now rows).0 ≤ writer_limit
unfolding commit_writer_grant
commit_writer_grant-length id grant now rows few = elim (Option-cases (get_writer rows id)) [
  | inr (previous, e) ↦ rw (e, commit_writer_grant) few
  | inl e ↦
      rw (e, commit_writer_grant)
        (ground (
          arith,
          length-append (filter (is_retained now) rows)
              (record { id = id; grant = grant; revoked_at = none } ∷ []),
          length-filter-le (is_retained now) rows,
        ))
]

-- A room with at most 128 writers never has more after a put.
pub length-put_grant :
    (id : Text) (body : Json) (now : ℕ) (rows : List Writer)
    → length rows ≤ writer_limit
    → length (put_grant id body now rows).0 ≤ writer_limit
unfolding put_grant
length-put_grant id body now rows few =
    ground (arith, commit_writer_grant-length id (grant_of body) now rows few)

get_writer-id :
    (id : Text) (rows : List Writer) (row : Writer) → get_writer rows id ≡ some row → row.id ≡ id
unfolding find
get_writer-id id [] row h = absurd (ground arith)
get_writer-id id (x ∷ rows) row h = elim (Bool-cases (has_id id x)) [
  | inl e ↦ ground (arith, text_eq→eq x.id id)
  | inr e ↦ get_writer-id id rows row (ground arith)
]

usable :
    (now : ℕ) (row : Writer)
    → is_usable false now row ≡ true
    → (row.revoked_at ≡ none) × (now < row.grant.expires_at)
usable now row h = elim (Option-cases row.revoked_at) [
  | inl e ↦ (e, ground arith)
  | inr (revoked, e) ↦ absurd (ground arith)
]

module _ (sha256 : Text → Text) where
  let_in :
      (c : Credential) (now : ℕ) (found row : Writer)
      → (if is_usable false now found && constant_time_equal (sha256 c.token) found.grant.token_hash
          then some found
          else none)
        ≡ some row
      → (found ≡ row)
        × (is_usable false now found ≡ true)
        × (constant_time_equal (sha256 c.token) found.grant.token_hash ≡ true)
  let_in c now found row h =
      elim (Bool-cases (
        is_usable false now found && constant_time_equal (sha256 c.token) found.grant.token_hash)) [
          | inl e ↦ ground arith
          | inr e ↦ absurd (ground arith)
        ]

  -- Who is authorised for writing shows the id of a writer that is neither revoked nor expired, and a
  -- token whose digest is that of the grant.
  pub authorize-some :
      (c : Credential) (now : ℕ) (rows : List Writer) (row : Writer)
      → authorize sha256 (some c) now false rows ≡ some row
      → (row.id ≡ c.id)
        × (row.revoked_at ≡ none)
        × (now < row.grant.expires_at)
        × (constant_time_equal (sha256 c.token) row.grant.token_hash ≡ true)
  unfolding authorize
  authorize-some c now rows row h = elim (Option-cases (get_writer rows c.id)) [
    | inl e ↦ absurd (ground arith)
    | inr (found, e) ↦
        let (same, open_still, shown) = let_in c now found row (ground arith) in
        let (never, ahead) = usable now found open_still in
        subst
          (λ r.
            (r.id ≡ c.id)
            × (r.revoked_at ≡ none)
            × (now < r.grant.expires_at)
            × (constant_time_equal (sha256 c.token) r.grant.token_hash ≡ true))
          same (get_writer-id c.id rows found e, never, ahead, shown)
  ]
