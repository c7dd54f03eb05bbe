-- ===== src/Volume/Users.antt =====
-- lib/users.c: user and group IDs, of the client and of the server.
use afpfs_ng.Common.{
  ℕ, true, false, ◌≡◌, Bytes, Bool, Option, none, some, ◌==◌, if◌then◌else◌, if_both, refl, ==_iff,
  ◌∙◌, inl, inr, ◌⊎◌,
}
use afpfs_ng.Did.Cache.{str_eq}
use afpfs_ng.Proto.Calls.{get_user_info, map_id}
use afpfs_ng.Proto.Codes.{is_no_err}
use afpfs_ng.Volume.{Volume, World, Mapping, unknown, common, loginids, M, request}

-- `none` for -1.
unfoldable pub translate_uidgid_to_server : Volume → (uid gid : ℕ) → Option (ℕ × ℕ)
translate_uidgid_to_server v uid gid = elim v.mapping [
  | common ↦ some (uid, gid)
  | loginids ↦ some (v.server_uid, v.server_gid)
  | unknown ↦ none
]

unfoldable pub translate_uidgid_to_client : Volume → (uid gid : ℕ) → Option (ℕ × ℕ)
translate_uidgid_to_client v uid gid = elim v.mapping [
  | common ↦ some (uid, gid)
  | loginids ↦ some (v.pw_uid, v.pw_gid)
  | unknown ↦ none
]

-- The group of this user.
unfoldable pub ask_group : World → Volume → Volume
ask_group w v =
    let group = request w (get_user_info 0 2) v in
    let known = record group.1 { server_gid_valid = true; server_gid = group.0.number } in
    if is_no_err group.0.code then known else group.1

-- The name that the server has for the client's user ID.
unfoldable pub ask_name : World → (pw_name : Bytes) → Volume → Volume
ask_name w pw_name v =
    let name = request w (map_id (if v.attr_utf8_names then 3 else 1) v.pw_uid) v in
    if str_eq name.0.contents pw_name then record name.1 { mapping = common } else name.1

-- The algorithm, where the mapping and the attributes do not decide.
unfoldable pub ask_user : World → (pw_name : Bytes) → Volume → Volume
unfolding ask_group ask_name
ask_user w pw_name v =
    let user = request w (get_user_info 0 1) v in
    let seen = record user.1 { server_uid = user.0.number } in
    let group = ask_group w seen in
    let rest : Volume =
      if group.server_uid == group.pw_uid then ask_name w pw_name group else group in
    if is_no_err user.0.code then rest else seen

-- `pw_name` is `server->passwd.pw_name`. The result is always 0.
unfoldable pub afp_detect_mapping : World → (pw_name : Bytes) → M ℕ
unfolding ask_user
afp_detect_mapping w pw_name v =
    let asked = ask_user w pw_name (record v { mapping = loginids; server_gid_valid = false }) in
    let given = record v { mapping = loginids } in
    elim v.mapping [ unknown ↦ (0, if v.attr_no_user_ids then given else asked) | _ ↦ (0, v) ]

-- What a step keeps of the user IDs.
abbrev Keeps : Volume → Volume → Type 0
Keeps v u = (u.server_uid ≡ v.server_uid) × (u.pw_uid ≡ v.pw_uid)

ask_group_lem :
    (w : World) (v : Volume) → Keeps v (ask_group w v) × ((ask_group w v).mapping ≡ v.mapping)
unfolding ask_group
ask_group_lem w v =
    if_both (λ u. Keeps v u × (u.mapping ≡ v.mapping))
      (is_no_err (w.peer v.sent (get_user_info 0 2)).code) _ _ ((refl, refl), refl)
      ((refl, refl), refl)

abbrev IsKnown : Mapping → Type 0
IsKnown m = (m ≡ loginids) ⊎ (m ≡ common)

ask_name_lem :
    (w : World) (pw_name : Bytes) (v : Volume)
    → v.mapping ≡ loginids
    → Keeps v (ask_name w pw_name v) × IsKnown (ask_name w pw_name v).mapping
unfolding ask_name
ask_name_lem w pw_name v h =
    if_both (λ u. Keeps v u × IsKnown u.mapping) (str_eq _ pw_name) _ _ ((refl, refl), inr refl)
      ((refl, refl), inl h)

-- A mapping that may come out: login IDs, or the common one for equal user IDs.
abbrev pub IsDetected : ℕ → Volume → Type 0
IsDetected pw_uid u = (u.mapping ≡ loginids) ⊎ ((u.mapping ≡ common) × (u.server_uid ≡ pw_uid))

IsDetected-if :
    (k : ℕ) (b : Bool) (x y : Volume)
    → (b ≡ true → IsDetected k x)
    → IsDetected k y
    → IsDetected k (if b then x else y)
IsDetected-if k true x y f g = f refl
IsDetected-if k false x y f g = g

IsDetected-uid :
    (k : ℕ) (g u : Volume)
    → Keeps g u
    → g.pw_uid ≡ k
    → (g.server_uid == g.pw_uid) ≡ true
    → IsKnown u.mapping
    → IsDetected k u
IsDetected-uid k g u keeps own same (inl h) = inl h
IsDetected-uid k g u keeps own same (inr h) =
    inr (h, keeps.0 ∙ ((==_iff g.server_uid g.pw_uid).0 same ∙ own))

ask_user_lem :
    (w : World) (pw_name : Bytes) (v : Volume)
    → v.mapping ≡ loginids
    → IsDetected v.pw_uid (ask_user w pw_name v)
unfolding ask_user
ask_user_lem w pw_name v h =
    let r = w.peer v.sent (get_user_info 0 1) in
    let seen = record (request w (get_user_info 0 1) v).1 { server_uid = r.number } in
    let g = ask_group_lem w seen in
    let n = ask_name_lem w pw_name (ask_group w seen) (g.1 ∙ h) in
    IsDetected-if v.pw_uid (is_no_err r.code) _ _
      (λ _.
        IsDetected-if v.pw_uid ((ask_group w seen).server_uid == (ask_group w seen).pw_uid) _ _
          (λ e.
            IsDetected-uid v.pw_uid (ask_group w seen) (ask_name w pw_name (ask_group w seen)) n.0
              g.0.1 e n.1)
          (inl (g.1 ∙ h)))
      (inl h)

-- An unknown mapping becomes the one by login IDs, or the common one, in which IDs are translated
-- to themselves; the common one only where the server has given the client's user ID as that of
-- this user. That holds whatever the server answers.
pub detect_mapping-IsDetected :
    (w : World) (pw_name : Bytes) (v : Volume)
    → v.mapping ≡ unknown
    → IsDetected v.pw_uid (afp_detect_mapping w pw_name v).1
unfolding afp_detect_mapping
detect_mapping-IsDetected w pw_name v h =
    rw (h, afp_detect_mapping)
      (IsDetected-if v.pw_uid v.attr_no_user_ids _ _ (λ _. inl refl)
        (ask_user_lem w pw_name (record v { mapping = loginids; server_gid_valid = false }) refl))
