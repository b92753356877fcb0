-- ===== src/ClusterController/AnswerRead.antt =====
-- What the reader of BMC's answers makes of an object with the fields of a status.
use cluster_api_provider_bmc.Base.{
  ◌≡◌, ◌∙◌, refl, arith, ℕ, String, Bool, false, Option, none, some, List, string_eq,
}
use cluster_api_provider_bmc.Go.{ok}
use cluster_api_provider_bmc.Go.Unicode.{text_of-codes}
use cluster_api_provider_bmc.Go.Json.Text.{codes}
use cluster_api_provider_bmc.Go.Json.Values.{flag, text, object, Members, no_member, member, print}
use cluster_api_provider_bmc.Go.Json.Read.{
  Value, Fields, truth, letters, field, value_of, fields_of,
}
use cluster_api_provider_bmc.Go.Json.Whole.{parse-print}
use cluster_api_provider_bmc.Go.Json.Tags.{text_member}
use cluster_api_provider_bmc.Go.Json.Decode.{
  is_named, is_same_name, fold_code, as_text, as_flag, as_pointer, decode_members, decode_struct,
}
use cluster_api_provider_bmc.Api.Cluster.{BmcClusterStatus}
use cluster_api_provider_bmc.ClusterController.State.{Environment}
use cluster_api_provider_bmc.ClusterController.Answer.{
  zero_status, store_status, decode_status, unmarshal,
}

pointer_member : String → Option String → Members → Members
pointer_member key none rest = rest
pointer_member key (some s) rest = member key (text s) rest

-- What `json.Marshal` makes of a status, by the tags.
unfoldable pub status_members : BmcClusterStatus → Members
unfolding pointer_member
status_members s = member "ready" (flag s.ready) (
    pointer_member "errorMessage" s.error_message (
      text_member "id" s.id
        (text_member "cidr" s.cidr (text_member "status" s.bmc_status no_member))))

-- Members in front of others.
abbrev pub before : Members → Members → Members
before no_member ms = ms
before (member k x rest) ms = member k x (before rest ms)

-- The name is that of no field.
abbrev IsUnknown : String → Type 0
IsUnknown k =
    (is_named "ready" (codes k) ≡ false)
    × (is_named "errorMessage" (codes k) ≡ false)
    × (is_named "id" (codes k) ≡ false)
    × (is_named "cidr" (codes k) ≡ false)
    × (is_named "status" (codes k) ≡ false)

abbrev pub AllUnknown : Members → Type 0
AllUnknown no_member = Unit
AllUnknown (member k x rest) = IsUnknown k × AllUnknown rest

abbrev decoded : Members → BmcClusterStatus → Option BmcClusterStatus
decoded ms s = decode_members store_status (fields_of ms) s

unknown_stored :
    (k : String) (x : Value) (s : BmcClusterStatus)
    → IsUnknown k
    → store_status (codes k) x s ≡ some s
unfolding store_status
unknown_stored k x s (a, b, c, d, e) = rw (store_status, a, b, c, d, e) refl

step-decoded :
    (key : List ℕ) (x : Value) (fs : Fields) (s : BmcClusterStatus) {s' : BmcClusterStatus}
    → store_status key x s ≡ some s'
    → decode_members store_status (field key x fs) s ≡ decode_members store_status fs s'
unfolding decode_members
step-decoded key x fs s kept = rw (decode_members, kept) refl

unknown_decoded :
    (others ms : Members) (s : BmcClusterStatus)
    → AllUnknown others
    → decoded (before others ms) s ≡ decoded ms s
unfolding fields_of
unknown_decoded no_member ms s unknown = refl
unknown_decoded (member k x rest) ms s (one, more) =
    step-decoded (codes k) (value_of x) (fields_of (before rest ms)) s
      (unknown_stored k (value_of x) s one)
    ∙ unknown_decoded rest ms s more

module _ (s : BmcClusterStatus) (t : String) where
  id-stored : store_status (codes "id") (letters (codes t)) s ≡ some (record s { id = t })
  unfolding store_status is_named is_same_name fold_code codes as_text
  id-stored = rw (text_of-codes t) refl

  cidr-stored : store_status (codes "cidr") (letters (codes t)) s ≡ some (record s { cidr = t })
  unfolding store_status is_named is_same_name fold_code codes as_text
  cidr-stored = rw (text_of-codes t) refl

  status-stored :
      store_status (codes "status") (letters (codes t)) s ≡ some (record s { bmc_status = t })
  unfolding store_status is_named is_same_name fold_code codes as_text
  status-stored = rw (text_of-codes t) refl

  message-stored :
      store_status (codes "errorMessage") (letters (codes t)) s
      ≡ some (record s { error_message = some t })
  unfolding store_status is_named is_same_name fold_code codes as_pointer
  message-stored = rw (text_of-codes t) refl

  module _ (ms : Members) where
    id-decoded : s.id ≡ "" → decoded (text_member "id" t ms) s ≡ decoded ms (record s { id = t })
    unfolding fields_of text_member value_of
    id-decoded blank =
        ground
          (arith, step-decoded (codes "id") (letters (codes t)) (fields_of ms) s id-stored, blank)

    cidr-decoded :
        s.cidr ≡ "" → decoded (text_member "cidr" t ms) s ≡ decoded ms (record s { cidr = t })
    unfolding fields_of text_member value_of
    cidr-decoded blank =
        ground (
          arith,
          step-decoded (codes "cidr") (letters (codes t)) (fields_of ms) s cidr-stored,
          blank,
        )

    status-decoded :
        s.bmc_status ≡ ""
        → decoded (text_member "status" t ms) s ≡ decoded ms (record s { bmc_status = t })
    unfolding fields_of text_member value_of
    status-decoded blank = ground (
      arith,
      step-decoded (codes "status") (letters (codes t)) (fields_of ms) s status-stored,
      blank,
    )

ready-stored :
    (s : BmcClusterStatus) (b : Bool)
    → store_status (codes "ready") (truth b) s ≡ some (record s { ready = b })
unfolding store_status is_named is_same_name fold_code codes as_flag
ready-stored s b = refl

message-decoded :
    (s : BmcClusterStatus) (m : Option String) (ms : Members)
    → s.error_message ≡ none
    → decoded (pointer_member "errorMessage" m ms) s ≡ decoded ms (record s { error_message = m })
unfolding fields_of pointer_member value_of
message-decoded s none ms blank = ground (arith, blank)
message-decoded s (some t) ms blank =
    step-decoded (codes "errorMessage") (letters (codes t)) (fields_of ms) s (message-stored s t)

status_members-decoded : (s : BmcClusterStatus) → decoded (status_members s) zero_status ≡ some s
unfolding status_members fields_of value_of decode_members
status_members-decoded s =
    let s1 : BmcClusterStatus = record zero_status { ready = s.ready } in
    let s2 : BmcClusterStatus = record s1 { error_message = s.error_message } in
    let s3 : BmcClusterStatus = record s2 { id = s.id } in
    let s4 : BmcClusterStatus = record s3 { cidr = s.cidr } in
    let m4 = text_member "status" s.bmc_status no_member in
    let m3 = text_member "cidr" s.cidr m4 in
    let m2 = text_member "id" s.id m3 in
    let m1 = pointer_member "errorMessage" s.error_message m2 in
    step-decoded (codes "ready") (truth s.ready) (fields_of m1) zero_status
      (ready-stored zero_status s.ready)
    ∙ message-decoded s1 s.error_message m2 refl
    ∙ id-decoded s2 s.id m3 refl
    ∙ cidr-decoded s3 s.cidr m4 refl
    ∙ status-decoded s4 s.bmc_status no_member refl

-- The text that json.Marshal makes of a status is read as the status, also with other members in
-- front whose names are not those of its fields, even up to case.
pub unmarshal-print :
    (env : Environment) (s : BmcClusterStatus) (others : Members)
    → AllUnknown others
    → unmarshal env (print (object (before others (status_members s)))) ≡ ok s
unfolding unmarshal decode_status decode_struct value_of
unmarshal-print env s others unknown =
    rw
      (
        unmarshal,
        decode_status,
        parse-print (object (before others (status_members s))),
        decode_struct,
        unknown_decoded others (status_members s) zero_status unknown,
        status_members-decoded s,
      )
      refl
