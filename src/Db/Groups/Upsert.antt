-- ===== src/Db/Groups/Upsert.antt =====
-- What `UpsertGroupMember` leaves in the table.
use alertory.Prelude.{true, List, [], ◌∷◌, Option, none, some, ◌≡◌, ◌≢◌, refl, arith, if◌then◌else◌}
use alertory.Text.{Str, ◌==◌, eq_iff, eq_refl}
use alertory.Map.{get, get-put}
use alertory.Clock.{Time, Duration}
use alertory.Db.Member.{
  GroupMember, MemberJson, omit_empty, or_zero, prefer, marshal, unmarshal, concat,
}
use alertory.Db.Groups.{
  Row, Table, GroupInfo, find_row, merge_member, inserted_row, updated_row, upsert_group_member,
}

-- The row that the statement writes, given the row that was there.
unfoldable pub upserted_row :
    GroupInfo → GroupMember → Duration → Duration → Time → Option Row → Row
upserted_row info member debounce max_window now none =
    inserted_row info member debounce max_window now
upserted_row info member debounce max_window now (some r) = updated_row info member debounce now r

module _ (info : GroupInfo) (member : GroupMember) (debounce max_window : Duration)
    (now : Time) where
  -- After an upsert the group's key finds the inserted or the updated row, and every other key
  -- finds what it found before.
  pub find_row-upsert_group_member :
      (k : Str) (t : Table)
      → find_row k (upsert_group_member info member debounce max_window now t) ≡ (
          if info.group_key == k
          then some (upserted_row info member debounce max_window now (find_row info.group_key t))
          else find_row k t)
  unfolding find_row upsert_group_member upserted_row inserted_row updated_row
  find_row-upsert_group_member k [] = refl
  find_row-upsert_group_member k (r ∷ t) = ground (
    arith,
    eq_iff r.group_key info.group_key,
    eq_iff r.group_key k,
    eq_iff info.group_key k,
    find_row-upsert_group_member k t,
  )

or_zero-prefer {ℓ} :
    {A : Type ℓ} (old : Option (List A)) (xs : List A)
    → xs ≡ []
    → or_zero [] (prefer old (omit_empty xs)) ≡ or_zero [] old
unfolding or_zero prefer omit_empty
or_zero-prefer old [] h = refl
or_zero-prefer old (x ∷ xs) h = cc

-- The `||` of an event that carries no bookkeeping keeps the bookkeeping of the stored member.
-- So do the title, the target and the fields, if the event's are empty.
pub concat_keeps :
    (j : MemberJson) (m : GroupMember)
    → let kept = unmarshal (concat j (marshal m)) in
      let old = unmarshal j in
      (kept.status ≡ m.status)
      × (m.notified_targets ≡ [] → kept.notified_targets ≡ old.notified_targets)
      × (m.notified_status ≡ [] → kept.notified_status ≡ old.notified_status)
      × (m.display_title ≡ [] → kept.display_title ≡ old.display_title)
      × (m.target ≡ [] → kept.target ≡ old.target)
      × (m.display_fields ≡ [] → kept.display_fields ≡ old.display_fields)
unfolding unmarshal marshal concat
concat_keeps j m = (
  refl,
  or_zero-prefer j.notified_targets m.notified_targets,
  or_zero-prefer j.notified_status m.notified_status,
  or_zero-prefer j.display_title m.display_title,
  or_zero-prefer j.target m.target,
  or_zero-prefer j.display_fields m.display_fields,
)

module _ (info : GroupInfo) (member : GroupMember) (debounce max_window : Duration)
    (now : Time) where
  -- An event for a member that is stored, whose `NotifiedTargets` and `NotifiedStatus` are empty
  -- as ingestion leaves them, updates the stored status and keeps the stored notification
  -- bookkeeping. The other members of the row stay as they were, and the row is marked dirty.
  pub upsert_group_member_keeps_bookkeeping :
      (t : Table) (r : Row) (j : MemberJson)
      → find_row info.group_key t ≡ some r
      → get member.fingerprint r.members ≡ some j
      → member.notified_targets ≡ []
      → member.notified_status ≡ []
      → (r' : Row) × (j' : MemberJson) × (find_row info.group_key
            (upsert_group_member info member debounce max_window now t)
          ≡ some r')
        × (get member.fingerprint r'.members ≡ some j')
        × ((unmarshal j').status ≡ member.status)
        × ((unmarshal j').notified_targets ≡ (unmarshal j).notified_targets)
        × ((unmarshal j').notified_status ≡ (unmarshal j).notified_status)
        × ((k : Str) → k ≢ member.fingerprint → get k r'.members ≡ get k r.members)
        × (r'.dirty ≡ true)
  unfolding updated_row upserted_row merge_member
  upsert_group_member_keeps_bookkeeping t r j found stored no_targets no_status = (
    updated_row info member debounce now r,
    concat j (marshal member),
    rw
        (
          find_row-upsert_group_member info member debounce max_window now info.group_key t,
          eq_refl info.group_key,
          found,
        )
        refl,
    rw (get-put, eq_refl member.fingerprint, stored) refl,
    kept.0,
    kept.1 no_targets,
    kept.2 no_status,
    λ k other. rw get-put (ground (arith, eq_iff member.fingerprint k)),
    refl,
  )
    where
      kept :
          ((unmarshal (concat j (marshal member))).status ≡ member.status)
          × (member.notified_targets ≡ []
              → (unmarshal (concat j (marshal member))).notified_targets
                ≡ (unmarshal j).notified_targets)
          × (member.notified_status ≡ []
              → (unmarshal (concat j (marshal member))).notified_status
                ≡ (unmarshal j).notified_status)
      kept = let c = concat_keeps j member in (c.0, c.1, c.2)
