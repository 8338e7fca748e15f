-- ===== src/Fs/Maps.antt =====
-- A map for which the laws of IsHashMap hold.
use mksd_old_archive.Base.{
  ℕ, ◌≡◌, inl, inr, refl, sym, ap₂, arith, Bool, true, false, ◌&&◌, Bool-cases, List, [], ◌∷◌, ◌==◌,
  if◌then◌else◌, ==_iff,
}
use mksd_old_archive.Fs.{HashMap}
use mksd_old_archive.Fs.Devices.{IsHashMap}

abbrev pub same : List ℕ → List ℕ → Bool
same [] [] = true
same [] (d ∷ t) = false
same (c ∷ s) [] = false
same (c ∷ s) (d ∷ t) = (c == d) && same s t

same_refl : (s : List ℕ) → same s s ≡ true
same_refl [] = refl
same_refl (c ∷ s) = ground (arith, same_refl s)

same_eq : (s t : List ℕ) → same s t ≡ true → s ≡ t
same_eq [] [] h = refl
same_eq [] (d ∷ t) h = absurd (ground arith)
same_eq (c ∷ s) [] h = absurd (ground arith)
same_eq (c ∷ s) (d ∷ t) h = elim (Bool-cases (c == d)) [
  | inl e ↦ ap₂ (λ (x : ℕ) (y : List ℕ). x ∷ y) ((==_iff c d).0 e) (same_eq s t (ground arith))
  | inr e ↦ absurd (ground arith)
]

-- A map as a function.
abbrev pub H : HashMap
H = record {
  Map = List ℕ → ℕ;
  create = λ k. 0;
  put = λ k v m l. if same k l then v else m l;
  get = λ k m. m k;
}

pub H-IsHashMap : IsHashMap H
H-IsHashMap = record {
  get-create = λ k. refl;
  get-put = λ k v m. rw (same_refl k) refl;
  get-put_ne = λ k l v m ne. elim (Bool-cases (same l k)) [
    | inl e ↦ absurd (ne (sym (same_eq l k e)))
    | inr e ↦ rw e refl
  ];
}
