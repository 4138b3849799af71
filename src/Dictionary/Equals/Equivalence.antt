-- ===== src/Dictionary/Equals/Equivalence.antt =====
-- `ccnxTlvDictionary_Equals` is an equivalence if the comparisons of the payloads are, and what it says
-- of a dictionary and its `ShallowCopy`.
use libccnx_common.Prelude.{
  ◌≡◌, refl, sym, ap, ◌∙◌, Bool, true, List, [], ◌∷◌, some, arith, ◌==◌, ==_refl, ok, ok-injective,
}
use libccnx_common.Dictionary.{
  Values, Entry, unset, buffer, name, integer, io_vec, json, object, ListEntry, Dictionary,
}
use libccnx_common.Dictionary.FastArray.{IsValid}
use libccnx_common.Dictionary.Lists.Views.{list_at}
use libccnx_common.Dictionary.Equals.{entry_equals, list_equals, equals}
use libccnx_common.Dictionary.Equals.Laws.{Passes, equals-Passes, slot_at}

pub record IsEquivalence {A : Type 0} (r : A → A → Bool) : Type 0 where
  pub rel_refl : (a : A) → r a a ≡ true
  pub rel_sym : (a b : A) → r a b ≡ true → r b a ≡ true
  pub rel_trans : (a b c : A) → r a b ≡ true → r b c ≡ true → r a c ≡ true

-- The documented contract of the payloads' `Equals` functions.
pub record IsLawful (V : Values) : Type 0 where
  pub buffers : IsEquivalence V.buffer_equals
  pub names : IsEquivalence V.name_equals
  pub io_vecs : IsEquivalence V.io_vec_equals
  pub jsons : IsEquivalence V.json_equals
  pub objects : IsEquivalence V.object_equals

pub nat-IsEquivalence : IsEquivalence ◌==◌
nat-IsEquivalence = record {
  rel_refl = ==_refl;
  rel_sym = λ a b h. ground arith;
  rel_trans = λ a b c h k. ground arith;
}

module _ {V : Values} (law : IsLawful V) where
  pub entry_equals_refl : (e : Entry V) → entry_equals e e ≡ true
  unfolding entry_equals
  entry_equals_refl unset = refl
  entry_equals_refl (buffer a) = law.buffers.rel_refl a
  entry_equals_refl (name a) = law.names.rel_refl a
  entry_equals_refl (integer a) = ==_refl a
  entry_equals_refl (io_vec a) = law.io_vecs.rel_refl a
  entry_equals_refl (json a) = law.jsons.rel_refl a
  entry_equals_refl (object a) = law.objects.rel_refl a

  entry_equals_sym : (d e : Entry V) → entry_equals d e ≡ true → entry_equals e d ≡ true
  unfolding entry_equals
  entry_equals_sym unset unset h = refl
  entry_equals_sym (buffer a) (buffer b) h = law.buffers.rel_sym a b h
  entry_equals_sym (name a) (name b) h = law.names.rel_sym a b h
  entry_equals_sym (integer a) (integer b) h = nat-IsEquivalence.rel_sym a b h
  entry_equals_sym (io_vec a) (io_vec b) h = law.io_vecs.rel_sym a b h
  entry_equals_sym (json a) (json b) h = law.jsons.rel_sym a b h
  entry_equals_sym (object a) (object b) h = law.objects.rel_sym a b h
  entry_equals_sym _ _ h = cc

  entry_equals_trans :
      (c d e : Entry V)
      → entry_equals c d ≡ true
      → entry_equals d e ≡ true
      → entry_equals c e ≡ true
  unfolding entry_equals
  entry_equals_trans unset unset e h k = k
  entry_equals_trans (buffer a) (buffer b) (buffer c) h k = law.buffers.rel_trans a b c h k
  entry_equals_trans (name a) (name b) (name c) h k = law.names.rel_trans a b c h k
  entry_equals_trans (integer a) (integer b) (integer c) h k = nat-IsEquivalence.rel_trans a b c h k
  entry_equals_trans (io_vec a) (io_vec b) (io_vec c) h k = law.io_vecs.rel_trans a b c h k
  entry_equals_trans (json a) (json b) (json c) h k = law.jsons.rel_trans a b c h k
  entry_equals_trans (object a) (object b) (object c) h k = law.objects.rel_trans a b c h k
  entry_equals_trans _ _ _ h k = cc

  pub list_equals_refl : (l : List (ListEntry V)) → list_equals l l ≡ true
  unfolding list_equals
  list_equals_refl [] = refl
  list_equals_refl (e ∷ l) = rw (==_refl, law.buffers.rel_refl e.buffer) (list_equals_refl l)

  -- A step of the walk, both ways.
  list_equals-cons :
      (d e : ListEntry V) (l m : List (ListEntry V))
      → list_equals (d ∷ l) (e ∷ m) ≡ true
      → (d.key ≡ e.key) × (V.buffer_equals d.buffer e.buffer ≡ true) × (list_equals l m ≡ true)
  unfolding list_equals
  list_equals-cons d e l m h = ground arith

  list_equals_of :
      (d e : ListEntry V) (l m : List (ListEntry V))
      → d.key ≡ e.key
      → V.buffer_equals d.buffer e.buffer ≡ true
      → list_equals l m ≡ true
      → list_equals (d ∷ l) (e ∷ m) ≡ true
  unfolding list_equals
  list_equals_of d e l m h k r = ground arith

  list_equals_sym : (l m : List (ListEntry V)) → list_equals l m ≡ true → list_equals m l ≡ true
  list_equals_sym [] [] h = h
  list_equals_sym (d ∷ l) (e ∷ m) h =
      let (k, b, r) = list_equals-cons d e l m h in
      list_equals_of e d m l (sym k) (law.buffers.rel_sym _ _ b) (list_equals_sym l m r)
  list_equals_sym [] (e ∷ m) h = unfold list_equals in cc
  list_equals_sym (d ∷ l) [] h = unfold list_equals in cc

  list_equals_trans :
      (l m n : List (ListEntry V))
      → list_equals l m ≡ true
      → list_equals m n ≡ true
      → list_equals l n ≡ true
  list_equals_trans [] [] n h k = k
  list_equals_trans (d ∷ l) (e ∷ m) (f ∷ n) h k =
      let (p, b, r) = list_equals-cons d e l m h in
      let (q, c, s) = list_equals-cons e f m n k in
      list_equals_of d f l n (p ∙ q) (law.buffers.rel_trans _ _ _ b c) (list_equals_trans l m n r s)
  list_equals_trans (d ∷ l) (e ∷ m) [] h k = unfold list_equals in cc
  list_equals_trans [] (e ∷ m) n h k = unfold list_equals in cc
  list_equals_trans (d ∷ l) [] n h k = unfold list_equals in cc

  Passes-refl : (a : Dictionary V) → Passes a a
  Passes-refl a = record {
    fast_array_size = refl;
    list_size = refl;
    dictionary_type = refl;
    schema_version = refl;
    entries = λ j lt. entry_equals_refl (slot_at a j);
    lists = λ j lt. list_equals_refl (list_at a j);
  }

  Passes-sym : (a b : Dictionary V) → Passes a b → Passes b a
  Passes-sym a b g = record {
    fast_array_size = sym g.fast_array_size;
    list_size = sym g.list_size;
    dictionary_type = sym g.dictionary_type;
    schema_version = sym g.schema_version;
    entries = λ j lt. entry_equals_sym _ _ (g.entries j (omega (arith, g.fast_array_size)));
    lists = λ j lt. list_equals_sym _ _ (g.lists j (omega (arith, g.list_size)));
  }

  Passes-trans : (a b c : Dictionary V) → Passes a b → Passes b c → Passes a c
  Passes-trans a b c g h = record {
    fast_array_size = g.fast_array_size ∙ h.fast_array_size;
    list_size = g.list_size ∙ h.list_size;
    dictionary_type = g.dictionary_type ∙ h.dictionary_type;
    schema_version = g.schema_version ∙ h.schema_version;
    entries = λ j lt.
        entry_equals_trans _ _ _ (g.entries j lt) (h.entries j (omega (arith, g.fast_array_size)));
    lists = λ j lt. list_equals_trans _ _ _ (g.lists j lt) (h.lists j (omega (arith, g.list_size)));
  }

  pub equals_of_Passes :
      (a b : Dictionary V) → IsValid a → IsValid b → Passes a b → equals (some a) (some b) ≡ ok true
  equals_of_Passes a b va vb g =
      let (t, run, (to, of)) = equals-Passes a b va vb in run ∙ ap ok (of g)

  Passes-of_equals :
      (a b : Dictionary V) → IsValid a → IsValid b → equals (some a) (some b) ≡ ok true → Passes a b
  Passes-of_equals a b va vb h =
      let (t, run, (to, of)) = equals-Passes a b va vb in to (ok-injective (sym run ∙ h))

  -- On valid dictionaries `Equals` is reflexive, symmetric and transitive, if the comparisons of the
  -- payloads are.
  pub equals_equivalence :
      (a b c : Dictionary V)
      → IsValid a
      → IsValid b
      → IsValid c
      → (equals (some a) (some a) ≡ ok true)
        × (equals (some a) (some b) ≡ ok true → equals (some b) (some a) ≡ ok true)
        × (equals (some a) (some b) ≡ ok true
            → equals (some b) (some c) ≡ ok true
            → equals (some a) (some c) ≡ ok true)
  equals_equivalence a b c va vb vc = (
    equals_of_Passes a a va va (Passes-refl a),
    (λ h. equals_of_Passes b a vb va (Passes-sym a b (Passes-of_equals a b va vb h))),
    (λ h k.
        equals_of_Passes a c va vc
          (Passes-trans a b c (Passes-of_equals a b va vb h) (Passes-of_equals b c vb vc k))),
  )
