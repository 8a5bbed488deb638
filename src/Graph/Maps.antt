-- ===== src/Graph/Maps.antt =====
-- src/compiler.rs, `parse`: maps whose keys differ, and the maps of a graph's JSON.
use rust_hotpath_ipc.Prelude.{
  ◌≡◌, refl, sym, ap, ◌∙◌, ◌≢◌, false, inl, inr, Bool-cases, none, some, List, [], ◌∷◌, arith,
}
use rust_hotpath_ipc.Prelude.Text.{Text, text_eq, text_eq_comm}
use rust_hotpath_ipc.Json.{Json, Fields, no_fields, field, find, insert}
use rust_hotpath_ipc.Json.Print.{settle, settle_fields}
use rust_hotpath_ipc.Compiler.{GNode}
use rust_hotpath_ipc.Graph.Encode.{str_fields, property_fields, encode_node, KeysDiffer}

some-ne-none {ℓ} : {A : Type ℓ} {a : A} → some a ≢ none
some-ne-none = cc

module _ {A : Type 0} where
  joined : Fields A → Fields A → Fields A
  joined no_fields fs = fs
  joined (field k v m) fs = field k v (joined m fs)

  joined_assoc : (a b c : Fields A) → joined (joined a b) c ≡ joined a (joined b c)
  unfolding joined
  joined_assoc no_fields b c = refl
  joined_assoc (field k v m) b c = ap (field k v) (joined_assoc m b c)

  joined-nil : (a : Fields A) → joined a no_fields ≡ a
  unfolding joined
  joined-nil no_fields = refl
  joined-nil (field k v m) = ap (field k v) (joined-nil m)

  insert-fresh :
      (k : Text) (v : Json A) (m : Fields A)
      → find k m ≡ none
      → insert k v m ≡ joined m (field k v no_fields)
  unfolding insert joined find
  insert-fresh k v no_fields h = refl
  insert-fresh k v (field j w m) h = ground (arith, insert-fresh k v m)

  find-joined :
      (j : Text) (m : Fields A) (k : Text) (v : Json A)
      → find j m ≡ none
      → text_eq k j ≡ false
      → find j (joined m (field k v no_fields)) ≡ none
  unfolding joined find
  find-joined j no_fields k v h e = ground arith
  find-joined j (field i w m) k v h e = ground (arith, find-joined j m k v)

  -- The fields' values have nothing to settle.
  Flat : Fields A → Type 0
  Flat no_fields = Unit {0}
  Flat (field k v m) = (settle v ≡ v) × Flat m

  -- None of the fields' keys stands in the map.
  Apart : Fields A → Fields A → Type 0
  Apart no_fields m = Unit {0}
  Apart (field k v fs) m = (find k m ≡ none) × Apart fs m

  Apart-joined :
      (fs m : Fields A) (k : Text) (v : Json A)
      → Apart fs m
      → find k fs ≡ none
      → Apart fs (joined m (field k v no_fields))
  unfolding Apart find
  Apart-joined no_fields m k v a h = tt
  Apart-joined (field j w fs) m k v a h = elim (Bool-cases (text_eq j k)) [
    | inl same ↦ absurd (some-ne-none (rw same at h))
    | inr differ ↦ (
      find-joined j m k v a.0 (text_eq_comm k j ∙ differ),
      Apart-joined fs m k v a.1 (rw differ at h),
    )
  ]

  settle_fields-joined :
      (fs m : Fields A) → Flat fs → KeysDiffer fs → Apart fs m → settle_fields fs m ≡ joined m fs
  unfolding settle Flat KeysDiffer Apart joined
  settle_fields-joined no_fields m f d a = sym (joined-nil m)
  settle_fields-joined (field k v fs) m f d a =
      rw (f.0, insert-fresh k v m a.0)
        (settle_fields-joined fs (joined m (field k v no_fields)) f.1 d.1
            (Apart-joined fs m k v a.1 d.0)
          ∙ joined_assoc m (field k v no_fields) fs)

  Apart-no_fields : (fs : Fields A) → Apart fs no_fields
  unfolding Apart find
  Apart-no_fields no_fields = tt
  Apart-no_fields (field k v fs) = (refl, Apart-no_fields fs)

  settle_fields-Flat : (fs : Fields A) → Flat fs → KeysDiffer fs → settle_fields fs no_fields ≡ fs
  settle_fields-Flat fs f d =
      settle_fields-joined fs no_fields f d (Apart-no_fields fs) ∙ (unfold joined in refl)

module _ (A : Type 0) where
  str_fields-Flat : (strs : List (Text × Text)) → Flat (str_fields {A = A} strs)
  unfolding Flat str_fields settle
  str_fields-Flat [] = tt
  str_fields-Flat ((k, s) ∷ r) = (refl, str_fields-Flat r)

module _ {A : Type 0} where
  property_fields-Flat :
      (nums : List (Text × A)) (strs : List (Text × Text)) → Flat (property_fields nums strs)
  unfolding Flat property_fields settle
  property_fields-Flat [] strs = str_fields-Flat A strs
  property_fields-Flat ((k, a) ∷ r) strs = (refl, property_fields-Flat r strs)

  pub settle-encode_node :
      (n : GNode A)
      → KeysDiffer (property_fields n.nums n.strs)
      → settle (encode_node n) ≡ encode_node n
  unfolding settle encode_node insert text_eq
  settle-encode_node n d =
      rw (settle_fields-Flat (property_fields n.nums n.strs) (property_fields-Flat n.nums n.strs) d)
