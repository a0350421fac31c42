-- ===== src/Kv/Builder/Written.antt =====
-- kv/builder.go: what Set leaves in the maps, and the stream ids that the tags are built from.
use g_storage_client.Prelude.{
  ℕ, ◌≡◌, refl, ap, sym, ◌∙◌, subst, Bool, true, false, ◌&&◌, ◌⊎◌, inl, inr, Option, none, some,
  List, [], ◌∷◌, if◌then◌else◌, eq_bytes, eq_bytes_refl, eq_bytes_sound, Bool-cases, Option-cases,
  All, All-append,
}
use g_storage_client.Merkle.{Hash}
use g_storage_client.Kv.{AccessControl}
use g_storage_client.Kv.Builder.{
  Entries, lookup, put, put_under, put_in, StreamDataBuilder, new_stream_data_builder, set_version,
  with_control, watch, set_key,
}

module _ {V : Type 0} where
  pub lookup-put :
      (m : Entries V) (k other : List ℕ) (v : V)
      → lookup other (put k v m) ≡ (if eq_bytes k other then some v else lookup other m)
  lookup-put [] k other v = refl
  lookup-put ((key, old) ∷ rest) k other v = elim (Bool-cases (eq_bytes key k)) [
    | inl same ↦
        let e : key ≡ k = eq_bytes_sound key k same in
        elim (Bool-cases (eq_bytes k other)) [
          | inl hit ↦ rw (same, ap (λ z. eq_bytes z other) e ∙ hit, hit) refl
          | inr different ↦ rw (same, ap (λ z. eq_bytes z other) e ∙ different, different) refl
        ]
    | inr differs ↦ elim (Bool-cases (eq_bytes key other)) [
      | inl hit ↦
          let apart : eq_bytes k other ≡ false = elim (Bool-cases (eq_bytes k other)) [
            | inl again ↦
                let e : key ≡ k =
                  eq_bytes_sound key other hit ∙ sym (eq_bytes_sound k other again) in
                let f : eq_bytes key k ≡ true = ap (λ z. eq_bytes z k) e ∙ eq_bytes_refl k in
                absurd cc
            | inr apart ↦ apart
          ] in
          rw (differs, hit, apart) refl
      | inr different ↦ rw (differs, different, lookup-put rest k other v) refl
    ]
  ]

module _ {V : Type 0} where
  -- The value that two maps, one in the other, have for two keys.
  abbrev pub lookup_under : List ℕ → Option (Entries V) → Option V
  lookup_under k none = none
  lookup_under k (some keys) = lookup k keys

  abbrev pub lookup_in : Hash → List ℕ → Entries (Entries V) → Option V
  lookup_in id k m = lookup_under k (lookup id m)

  pub lookup_in-put_in :
      (m : Entries (Entries V)) (id other_id : Hash) (k other : List ℕ) (v : V)
      → lookup_in other_id other (put_in id k v m)
        ≡ (if eq_bytes id other_id && eq_bytes k other then some v else lookup_in other_id other m)
  unfolding put_in
  lookup_in-put_in m id other_id k other v = elim (Bool-cases (eq_bytes id other_id)) [
    | inl same ↦ elim (Option-cases (lookup id m)) [
      | inl missing ↦
          let e = ap (λ z. lookup z m) (sym (eq_bytes_sound id other_id same)) ∙ missing in
          rw (missing, ap (lookup_under other) (lookup-put m id other_id ((k, v) ∷ [])), same, e)
            refl
      | inr (keys, found) ↦
          let e = ap (λ z. lookup z m) (sym (eq_bytes_sound id other_id same)) ∙ found in
          rw (found, ap (lookup_under other) (lookup-put m id other_id (put k v keys)), same, e)
            (lookup-put keys k other v)
    ]
    | inr differs ↦ elim (Option-cases (lookup id m)) [
      | inl missing ↦
          rw (missing, ap (lookup_under other) (lookup-put m id other_id ((k, v) ∷ [])), differs)
            refl
      | inr (keys, found) ↦
          rw (found, ap (lookup_under other) (lookup-put m id other_id (put k v keys)), differs)
            refl
    ]
  ]

-- The calls of a builder's methods; the ten of access control differ in the type and in which of
-- account and key they have.
pub data Operation : Type 0 where
  version_set : ℕ → Operation
  watched key_set : Hash → List ℕ → List ℕ → Operation
  controlled : ℕ → Hash → Option (List ℕ) → Option (List ℕ) → Operation

module _ (hex unhex : List ℕ → List ℕ) where
  abbrev pub call : Operation → StreamDataBuilder → StreamDataBuilder
  call (version_set n) b = set_version n b
  call (watched id key bytes) b = watch hex unhex id key b
  call (key_set id key bytes) b = set_key hex unhex id key bytes b
  call (controlled t id account key) b = with_control t id account key b

  abbrev pub call_all : List Operation → StreamDataBuilder → StreamDataBuilder
  call_all [] b = b
  call_all (o ∷ os) b = call_all os (call o b)

  -- Set gives a key of a stream its data, in place of what it had, and leaves all other keys of
  -- all streams as they were. (Keys are told apart by their hex strings.)
  pub set_key-lookup_in :
      (b : StreamDataBuilder) (id other_id : Hash) (key other bytes : List ℕ)
      → lookup_in other_id other (set_key hex unhex id key bytes b).writes ≡ (
          if eq_bytes id other_id && eq_bytes (hex key) other
          then some bytes
          else lookup_in other_id other b.writes)
  unfolding set_key
  set_key-lookup_in b id other_id key other bytes =
      lookup_in-put_in b.writes id other_id (hex key) other bytes

-- Each stream that a write or a control is about is among the stream ids.
abbrev pub InTags : Hash → Entries Bool → Type 0
InTags id ids = lookup id ids ≡ some true

abbrev pub IsTagged : StreamDataBuilder → Type 0
IsTagged b =
    ((id : Hash) → (lookup id b.writes ≡ none) ⊎ InTags id b.stream_ids)
    × All (λ (c : AccessControl). InTags c.stream_id b.stream_ids) b.controls

InTags-put : (ids : Entries Bool) (added id : Hash) → InTags id ids → InTags id (put added true ids)
InTags-put ids added id h = elim (Bool-cases (eq_bytes added id)) [
  | inl same ↦ lookup-put ids added id true ∙ rw same refl
  | inr other ↦ lookup-put ids added id true ∙ rw other h
]

InTags-put_same : (ids : Entries Bool) (id : Hash) → InTags id (put id true ids)
InTags-put_same ids id = lookup-put ids id id true ∙ rw (eq_bytes_refl id) refl

controls-put :
    (ids : Entries Bool) (added : Hash) (cs : List AccessControl)
    → All (λ (c : AccessControl). InTags c.stream_id ids) cs
    → All (λ (c : AccessControl). InTags c.stream_id (put added true ids)) cs
controls-put ids added [] h = tt
controls-put ids added (c ∷ cs) (h, rest) =
    (InTags-put ids added c.stream_id h, controls-put ids added cs rest)

module _ (hex unhex : List ℕ → List ℕ) where
  written-set_key :
      (id other : Hash) (key bytes : List ℕ) (b : StreamDataBuilder)
      → (lookup other b.writes ≡ none) ⊎ InTags other b.stream_ids
      → (lookup other (set_key hex unhex id key bytes b).writes ≡ none)
        ⊎ InTags other (put id true b.stream_ids)
  unfolding set_key put_in
  written-set_key id other key bytes b (inr h) = inr (InTags-put b.stream_ids id other h)
  written-set_key id other key bytes b (inl h) = elim (Bool-cases (eq_bytes id other)) [
    | inl same ↦ inr (
        subst (λ z. InTags z (put id true b.stream_ids)) (eq_bytes_sound id other same)
          (InTags-put_same b.stream_ids id))
    | inr differs ↦ inl (go (lookup id b.writes) differs)
  ]
    where
      go :
          (o : Option (Entries (List ℕ)))
          → eq_bytes id other ≡ false
          → lookup other (put_under id (hex key) bytes b.writes o) ≡ none
      go none d = lookup-put b.writes id other ((hex key, bytes) ∷ []) ∙ rw d h
      go (some keys) d = lookup-put b.writes id other (put (hex key) bytes keys) ∙ rw d h

  call-IsTagged :
      (o : Operation) (b : StreamDataBuilder) → IsTagged b → IsTagged (call hex unhex o b)
  unfolding set_key watch
  call-IsTagged (version_set n) b h = h
  call-IsTagged (watched id key bytes) b h = h
  call-IsTagged (key_set id key bytes) b (writes, controls) = (
    (λ other. written-set_key id other key bytes b (writes other)),
    controls-put b.stream_ids id b.controls controls,
  )
  call-IsTagged (controlled t id account key) b (writes, controls) = (
    (λ other. elim (writes other) [
      | inl h ↦ inl h
      | inr h ↦ inr (InTags-put b.stream_ids id other h)
    ]),
    All-append (λ (c : AccessControl). InTags c.stream_id (put id true b.stream_ids)) b.controls
        (record { type_byte = t; stream_id = id; account = account; key = key } ∷ [])
        (controls-put b.stream_ids id b.controls controls) (InTags-put_same b.stream_ids id, tt),
  )

  call_all-IsTagged :
      (os : List Operation) (b : StreamDataBuilder)
      → IsTagged b
      → IsTagged (call_all hex unhex os b)
  call_all-IsTagged [] b h = h
  call_all-IsTagged (o ∷ os) b h = call_all-IsTagged os (call hex unhex o b) (call-IsTagged o b h)

  -- After any calls on a new builder, each stream that it has writes for, and each stream that a
  -- control of it is about, is among the stream ids that its tags are built from.
  pub call_all-new-IsTagged :
      (os : List Operation) (version : ℕ)
      → IsTagged (call_all hex unhex os (new_stream_data_builder version))
  call_all-new-IsTagged os version =
      call_all-IsTagged os (new_stream_data_builder version) ((λ id. inl refl), tt)
