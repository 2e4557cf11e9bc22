-- ===== src/Jobs/Routes/Scope.antt =====
-- src/taskDispatch/index.js: what a writer may do.
use granttap_relay.Prelude.{
  ℕ, ◌≡◌, refl, subst, sym, ◌∙◌, Bool, true, false, not, ◌&&◌, ◌⊎◌, inl, inr, List, Option, none,
  some, arith, if◌then◌else◌, is_some, Text, codes, text_eq, text_eq→eq, Bool-cases, Option-cases,
}
use granttap_relay.Relay.Json.{
  Json, string, Fields, end, field, is_text, exceeds, object, lookup, get,
}
use granttap_relay.Relay.Validation.{valid_room}
use granttap_relay.Jobs.Store.{cancel}
use granttap_relay.Jobs.Writers.{Writer, authorize}
use granttap_relay.Jobs.Routes.{
  Method, get_method, put_method, delete_method, is_get, TaskPath, configuration, resource, grant,
  jobs, job, action, unknown, Operation, show_resources, show_job, put_job, move_job, Decision,
  refuse, perform, Request, without, signed_body, Existing, is_own, within_grant, decide_own_job,
  decide_writer, decide, credential_of, retained_read, task_dispatch_response,
}

-- The body that is put names the writer and its source, and is for the writer's recipient and no longer
-- than its grant.
pub record IsSigned (w : Writer) (body : Json) : Type 0 where
  pub writer : get body (codes "writerId") ≡ string w.id
  pub source : get body (codes "writerSourceKeyId") ≡ string w.grant.source_key_id
  pub recipient :
      is_text (get (get body (codes "envelope")) (codes "recipientKeyId")) w.grant.recipient_key_id
      ≡ true
  pub lifetime : exceeds (get body (codes "expiresAt")) w.grant.expires_at ≡ false

-- What a writer is let do: read its own resources, read and cancel the job of an id that is its own, and
-- put a job under an id that is free or its own, in its name and for its recipient.
abbrev pub InScope : Writer → (Text → Existing) → Operation → Type 0
InScope w existing (show_resources id) = id ≡ w.id
InScope w existing (show_job id metadata_only) = is_own w (existing id) ≡ true
InScope w existing (move_job id cancel body) = is_own w (existing id) ≡ true
InScope w existing (put_job id body) =
    ((existing id ≡ none) ⊎ (is_own w (existing id) ≡ true)) × IsSigned w body
InScope w existing _ = ⊥

lookup-without :
    (name other : Text) (fields : Fields)
    → text_eq other name ≡ false
    → lookup name (without other fields) ≡ lookup name fields
unfolding lookup
lookup-without name other end h = refl
lookup-without name other (field key value rest) h = elim (Bool-cases (text_eq key other)) [
  | inr e ↦ ground (arith, lookup-without name other rest)
  | inl e ↦
      let same : key ≡ other = text_eq→eq key other e in
      let differs : text_eq key name ≡ false = subst (λ k. text_eq k name ≡ false) (sym same) h in
      simp (e, differs) (lookup-without name other rest h)
]

-- A field that is neither of the two that are signed is the one that came.
signed-get :
    (w : Writer) (fields : Fields) (name : Text)
    → text_eq (codes "writerId") name ≡ false
    → text_eq (codes "writerSourceKeyId") name ≡ false
    → get (signed_body w (object fields)) name ≡ get (object fields) name
unfolding signed_body get lookup
signed-get w fields name a b =
    simp (a, b)
      (lookup-without name (codes "writerId") (without (codes "writerSourceKeyId") fields) a
        ∙ lookup-without name (codes "writerSourceKeyId") fields b)

grant_parts :
    (w : Writer) (body : Json)
    → within_grant w body ≡ true
    → (is_text (get (get body (codes "envelope")) (codes "recipientKeyId")) w.grant.recipient_key_id
        ≡ true)
      × (exceeds (get body (codes "expiresAt")) w.grant.expires_at ≡ false)
grant_parts w body h = ground arith

signed_body-IsSigned :
    (w : Writer) (fields : Fields)
    → within_grant w (object fields) ≡ true
    → IsSigned w (signed_body w (object fields))
unfolding signed_body get lookup text_eq
signed_body-IsSigned w fields h =
    let parts = grant_parts w (object fields) h in
    record {
      writer = refl;
      source = refl;
      recipient =
          subst (λ v. is_text (get v (codes "recipientKeyId")) w.grant.recipient_key_id ≡ true)
            (sym (signed-get w fields (codes "envelope") refl refl)) parts.0;
      lifetime =
          subst (λ v. exceeds v w.grant.expires_at ≡ false)
            (sym (signed-get w fields (codes "expiresAt") refl refl)) parts.1;
    }

granted-IsSigned :
    (w : Writer) (body : Json) → within_grant w body ≡ true → IsSigned w (signed_body w body)
unfolding get
granted-IsSigned w (object fields) h = signed_body-IsSigned w fields h
granted-IsSigned w _ h = absurd (ground arith)

-- A decision is in the scope of the writer if it refuses, or its operation is.
abbrev Permits : Writer → (Text → Existing) → Decision → Type 0
Permits w existing (refuse status) = Unit {0}
Permits w existing (perform op) = InScope w existing op

existing-cases :
    (w : Writer) (existing : Existing)
    → (is_some existing && not (is_own w existing)) ≡ false
    → (existing ≡ none) ⊎ (is_own w existing ≡ true)
existing-cases w none h = inl refl
existing-cases w (some e) h = inr (ground arith)

-- A request about one job, whatever its method.
own_job-Permits :
    (m : Method) (p : TaskPath) (metadata_only : Bool) (body : Json) (w : Writer)
    (existing : Text → Existing) (id : Text)
    → Permits w existing (
        decide_own_job
          (record { method = m; path = p; metadata_only = metadata_only; body = body })
          w
          (existing id)
          id)
own_job-Permits get_method p metadata_only body w existing id =
    elim (Bool-cases (is_own w (existing id))) [ inl own ↦ rw own own | inr other ↦ rw other tt ]
own_job-Permits delete_method p metadata_only body w existing id =
    elim (Bool-cases (is_own w (existing id))) [ inl own ↦ rw own own | inr other ↦ rw other tt ]
own_job-Permits put_method p metadata_only body w existing id =
    elim (Bool-cases (is_some (existing id) && not (is_own w (existing id)))) [
      | inl other ↦ rw other tt
      | inr own ↦ elim (Bool-cases (within_grant w body)) [
        | inr outside ↦ rw (own, outside) tt
        | inl inside ↦
            rw (own, inside) (existing-cases w (existing id) own, granted-IsSigned w body inside)
      ]
    ]
own_job-Permits _ p metadata_only body w existing id = tt

resource-Permits :
    (m : Method) (id : Text) (w : Writer) (existing : Text → Existing)
    → Permits w existing
        (if text_eq id w.id && is_get m then perform (show_resources id) else refuse 403)
resource-Permits m id w existing = elim (Bool-cases (text_eq id w.id)) [
  | inr other ↦ rw other tt
  | inl same ↦ elim (Bool-cases (is_get m)) [
    | inl reads ↦ rw (same, reads) (text_eq→eq id w.id same)
    | inr writes ↦ rw (same, writes) tt
  ]
]

writer-Permits :
    (m : Method) (p : TaskPath) (metadata_only : Bool) (body : Json) (w : Writer)
    (existing : Text → Existing)
    → Permits w existing (
        decide_writer
          (record { method = m; path = p; metadata_only = metadata_only; body = body })
          w
          existing)
unfolding decide_writer
writer-Permits m (configuration id) metadata_only body w existing = tt
writer-Permits m (resource id) metadata_only body w existing = resource-Permits m id w existing
writer-Permits m (grant id) metadata_only body w existing = tt
writer-Permits m jobs metadata_only body w existing = tt
writer-Permits m (job id) metadata_only body w existing =
    own_job-Permits m (job id) metadata_only body w existing id
writer-Permits m (action id act) metadata_only body w existing = tt
writer-Permits m unknown metadata_only body w existing = tt

module _ (sha256 : Text → Text) where
  -- A request that is not the owner's leads to an operation only for a writer that its credential
  -- authorises, and the operation is in the scope of that writer: it reads the writer's own resources,
  -- reads or cancels the job of an id that the store has as the writer's, or puts a job, in the writer's
  -- name, for its recipient and no longer than its grant, under an id that is free or the writer's.
  pub task_dispatch_response-InScope :
      (r : Request) (room : Json) (credential : Option Text) (now : ℕ) (writers : List Writer)
      (existing : Text → Existing) (op : Operation)
      → task_dispatch_response sha256 r room false credential now writers existing ≡ perform op
      → (w : Writer) × (authorize sha256 (credential_of credential) now (retained_read r) writers
          ≡ some w)
        × InScope w existing op
  unfolding task_dispatch_response decide
  task_dispatch_response-InScope r room credential now writers existing op h =
      elim (Bool-cases (valid_room room)) [
        | inr invalid ↦ absurd (ground arith)
        | inl valid ↦
            elim (Option-cases
              (authorize sha256 (credential_of credential) now (retained_read r) writers)) [
                | inl nobody ↦ absurd (ground arith)
                | inr (w, known) ↦
                    let decision : decide_writer r w existing ≡ perform op = ground arith in
                    (
                      w,
                      known,
                      subst (Permits w existing) decision
                          (writer-Permits r.method r.path r.metadata_only r.body w existing),
                    )
              ]
      ]
