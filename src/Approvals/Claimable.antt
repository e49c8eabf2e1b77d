-- ===== src/Approvals/Claimable.antt =====
-- The approval that a call of `consume_approval` may consume.
use muse_agent_social.Prelude.{
  String, Bool, true, false, ◌&&◌, Option, none, some, List, [], ◌∷◌, ◌≡◌, refl, subst, inl, inr,
  arith, ◌==◌, eq_iff, text_lt, Bool-cases, Option-cases, ◌∙◌, ap, sym,
}
use muse_agent_social.Prelude.Table.{find, exists, update}
use muse_agent_social.Prelude.TableLaws.{update-none, find-none_of_exists}
use muse_agent_social.Store.Tables.{ApprovalRow}
use muse_agent_social.Approvals.{
  binds, binds_flag, subject_text, Bindings, claims, consumed_row, get_approval, is_bound,
  unconsumed,
}

-- `approval_id` is a primary key.
abbrev pub has_id : String → ApprovalRow → Bool
has_id id r = r.approval_id == id

abbrev pub IsKeyed : List ApprovalRow → Type 0
IsKeyed [] = Unit
IsKeyed (r ∷ rs) = (exists (has_id r.approval_id) rs ≡ false) × IsKeyed rs

pub same_id :
    (id : String) (r : ApprovalRow) (rs : List ApprovalRow)
    → (r.approval_id == id) ≡ true
    → exists (has_id r.approval_id) rs ≡ false
    → exists (has_id id) rs ≡ false
same_id id r rs e = subst (λ i. exists (has_id i) rs ≡ false) ((eq_iff r.approval_id id).0 e)

pub no_claim :
    (id now : String) (b : Bindings) (rs : List ApprovalRow)
    → exists (has_id id) rs ≡ false
    → exists (claims id now b) rs ≡ false
unfolding exists claims
no_claim id now b [] h = refl
no_claim id now b (r ∷ rs) h = ground (arith, no_claim id now b rs (ground arith))

-- A binding that is not given, or that the column has.
abbrev pub IsMet {ℓ} : {A : Type ℓ} → Option A → A → Type ℓ
IsMet none column = Unit
IsMet (some value) column = column ≡ value

-- The record may be consumed.
pub record IsClaimable (now : String) (b : Bindings) (r : ApprovalRow) : Type 0 where
  pub unused : r.consumed_at ≡ none
  pub unexpired : text_lt now r.expires_at ≡ true
  pub same_relationship : IsMet b.relationship_id r.relationship_id
  pub same_type : IsMet b.subject_type (subject_text r.subject_type)
  pub same_subject : IsMet b.subject_id r.subject_id
  pub same_answer : IsMet b.answer r.answer
  pub same_approved : IsMet b.approved r.approved

column_of_binds :
    (value : Option String) (column : String) → binds value column ≡ true → IsMet value column
column_of_binds none column h = tt
column_of_binds (some v) column h = (eq_iff column v).0 h

binds-IsMet :
    (value : Option String) (column : String) → IsMet value column → binds value column ≡ true
binds-IsMet none column h = refl
binds-IsMet (some v) column h = (eq_iff column v).1 h

flag_of_binds :
    (value : Option Bool) (column : Bool) → binds_flag value column ≡ true → IsMet value column
flag_of_binds none column h = tt
flag_of_binds (some true) true h = refl
flag_of_binds (some true) false h = ground (arith, h)
flag_of_binds (some false) true h = ground (arith, h)
flag_of_binds (some false) false h = refl

binds_flag-IsMet :
    (value : Option Bool) (column : Bool) → IsMet value column → binds_flag value column ≡ true
binds_flag-IsMet none column h = refl
binds_flag-IsMet (some true) true h = refl
binds_flag-IsMet (some true) false h = ground (arith, h)
binds_flag-IsMet (some false) true h = ground (arith, h)
binds_flag-IsMet (some false) false h = refl

unused-none : (r : ApprovalRow) → unconsumed r ≡ true → r.consumed_at ≡ none
unused-none r h = ground (arith, h)

-- What the claim asks of the record that carries the id.
abbrev is_claimable : String → Bindings → Option ApprovalRow → Bool
is_claimable now b none = false
is_claimable now b (some r) = unconsumed r && text_lt now r.expires_at && is_bound b r

pub test-IsClaimable :
    (now : String) (b : Bindings) (r : ApprovalRow)
    → is_claimable now b (some r) ≡ true
    → IsClaimable now b r
unfolding is_bound
test-IsClaimable now b r h = record {
  unused = unused-none r (ground (arith, h));
  unexpired = ground (arith, h);
  same_relationship = column_of_binds b.relationship_id r.relationship_id (ground (arith, h));
  same_type = column_of_binds b.subject_type (subject_text r.subject_type) (ground (arith, h));
  same_subject = column_of_binds b.subject_id r.subject_id (ground (arith, h));
  same_answer = column_of_binds b.answer r.answer (ground (arith, h));
  same_approved = flag_of_binds b.approved r.approved (ground (arith, h));
}

IsClaimable-test :
    (now : String) (b : Bindings) (r : ApprovalRow)
    → IsClaimable now b r
    → is_claimable now b (some r) ≡ true
unfolding is_bound
IsClaimable-test now b r h =
    rw
      (
        h.unused,
        h.unexpired,
        binds-IsMet b.relationship_id r.relationship_id h.same_relationship,
        binds-IsMet b.subject_type (subject_text r.subject_type) h.same_type,
        binds-IsMet b.subject_id r.subject_id h.same_subject,
        binds-IsMet b.answer r.answer h.same_answer,
        binds_flag-IsMet b.approved r.approved h.same_approved,
      )
      refl

claimed :
    (id now : String) (b : Bindings) (rs : List ApprovalRow)
    → IsKeyed rs
    → exists (claims id now b) rs ≡ is_claimable now b (get_approval id rs)
unfolding get_approval exists find claims
claimed id now b [] k = refl
claimed id now b (r ∷ rs) k = elim (Bool-cases (r.approval_id == id)) [
  | inl e ↦ ground (arith, no_claim id now b rs (same_id id r rs e k.0))
  | inr e ↦ ground (arith, claimed id now b rs k.1)
]

pub get-claimed :
    (id now : String) (b : Bindings) (rs : List ApprovalRow) (r : ApprovalRow)
    → IsKeyed rs
    → get_approval id rs ≡ some r
    → is_claimable now b (some r) ≡ true
    → get_approval id (update (claims id now b) (consumed_row now) rs) ≡ some (consumed_row now r)
unfolding get_approval update find claims
get-claimed id now b [] r k h c = ground (arith, h)
get-claimed id now b (x ∷ xs) r k h c = elim (Bool-cases (x.approval_id == id)) [
  | inl e ↦
      let same : x ≡ r = ground (arith, h, e) in rw (same, rw same at e, c) (rw (rw same at e) refl)
  | inr e ↦ ground (arith, e, get-claimed id now b xs r k.1 (ground (arith, h, e)) c)
]

pub taken :
    (id now : String) (b : Bindings) (rs : List ApprovalRow)
    → IsKeyed rs
    → exists (claims id now b) rs ≡ true
    → (r : ApprovalRow) × (get_approval id rs ≡ some r) × (is_claimable now b (some r) ≡ true)
taken id now b rs k h = elim (Option-cases (get_approval id rs)) [
  | inl e ↦ ground (arith, sym (claimed id now b rs k) ∙ h, ap (is_claimable now b) e)
  | inr (r, e) ↦ (r, e, sym (ap (is_claimable now b) e) ∙ sym (claimed id now b rs k) ∙ h)
]

pub update-unclaimed :
    (id now : String) (b : Bindings) (rs : List ApprovalRow)
    → exists (claims id now b) rs ≡ false
    → update (claims id now b) (consumed_row now) rs ≡ rs
update-unclaimed id now b rs h =
    update-none (claims id now b) (consumed_row now) rs (find-none_of_exists (claims id now b) rs h)

-- A record with the id that may be consumed.
abbrev pub HasClaimable : String → String → Bindings → List ApprovalRow → Type 0
HasClaimable id now b rows =
    (r : ApprovalRow) × (get_approval id rows ≡ some r) × IsClaimable now b r

pub untaken :
    (id now : String) (b : Bindings) (rs : List ApprovalRow)
    → IsKeyed rs
    → exists (claims id now b) rs ≡ false
    → ¬ (HasClaimable id now b rs)
untaken id now b rs k h (r, e, c) =
    ground
      (arith, h, claimed id now b rs k ∙ ap (is_claimable now b) e ∙ IsClaimable-test now b r c)
