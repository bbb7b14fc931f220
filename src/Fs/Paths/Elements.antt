-- ===== src/Fs/Paths/Elements.antt =====
-- fs.c: skipelem against the parts of a path.
use mathlib.Core.List.{append-nil}
use os192_ass2_multi_thread.Fs.Directory.{dirsiz}
use os192_ass2_multi_thread.Fs.Paths.{element, skipelem, skip_slashes, behind, slash, kept}
use os192_ass2_multi_thread.Base.{
  List, ℕ, ◌∷◌, ◌≡◌, ◌++◌, ◌≢◌, replicate, none, ◌⊎◌, [], ◌<◌, Bool-cases, ◌==◌, length, some, inl,
  if◌then◌else◌, suc, leb, arith, inr, take, ap, refl, subst, zero, ◌∙◌,
}

-- No slash among these bytes.
abbrev pub NoSlash : List ℕ → Type 0
NoSlash [] = Unit
NoSlash (c ∷ cs) = (c ≢ slash) × NoSlash cs

-- Behind an element comes a slash, or the end.
abbrev pub AtSlash : List ℕ → Type 0
AtSlash [] = Unit
AtSlash (c ∷ cs) = c ≡ slash

-- A path that does not start with a slash.
abbrev pub AtName : List ℕ → Type 0
AtName [] = Unit
AtName (c ∷ cs) = c ≢ slash

skip_slashes_lem :
    (path : List ℕ)
    → (n : ℕ) × (path ≡ replicate n slash ++ skip_slashes path) × AtName (skip_slashes path)
unfolding skip_slashes
skip_slashes_lem [] = (0, refl, tt)
skip_slashes_lem (c ∷ cs) = elim (Bool-cases (c == slash)) [
  | inl y ↦ (let (n, e, a) = skip_slashes_lem cs in rw y (suc n, ground (arith, e), a))
  | inr k ↦ rw k (0, refl, ground arith)
]

element_lem :
    (path : List ℕ)
    → (path ≡ element path ++ behind path) × NoSlash (element path) × AtSlash (behind path)
unfolding element behind
element_lem [] = (refl, tt, tt)
element_lem (c ∷ cs) = elim (Bool-cases (c == slash)) [
  | inl y ↦ rw y (refl, tt, ground arith)
  | inr k ↦ (let (e, a, b) = element_lem cs in rw k (ap (λ l. c ∷ l) e, (ground arith, a), b))
]

-- The parts of a path that skipelem tells apart.
pub record Parts (path name rest : List ℕ) : Type 0 where
  pub before : ℕ
  pub elem : List ℕ
  pub after : ℕ
  pub whole : path ≡ replicate before slash ++ (elem ++ (replicate after slash ++ rest))
  pub plain : NoSlash elem
  pub some_byte : 0 < length elem
  pub ended : (0 < after) ⊎ (rest ≡ [])
  pub next : AtName rest
  pub name_of : name ≡ (if leb dirsiz (length elem) then take dirsiz elem else elem ++ (0 ∷ []))

end_or_slash :
    (b r : List ℕ) (k : ℕ) → AtSlash b → b ≡ replicate k slash ++ r → AtName r → (0 < k) ⊎ (r ≡ [])
end_or_slash b [] k h e g = inr refl
end_or_slash b (x ∷ r) zero h e g = absurd (g (subst AtSlash e h))
end_or_slash b (x ∷ r) (suc k) h e g = inl (omega arith)

-- skipelem: a path of slashes alone has no element. Any other is slashes, an element that has no slash, and then
-- slashes and the rest, or the end; the name is the element, with a NUL if it is shorter than 14 bytes, cut
-- to 14 if it is longer.
pub skipelem_lem :
    (path : List ℕ)
    → ((skipelem path ≡ none) × ((n : ℕ) × (path ≡ replicate n slash)))
      ⊎ ((name rest : List ℕ) × (skipelem path ≡ some (name, rest)) × Parts path name rest)
unfolding skipelem
skipelem_lem path = cases (skip_slashes path) refl (skip_slashes_lem path)
  where
    cases :
        (p : List ℕ)
        → skip_slashes path ≡ p
        → ((n : ℕ) × (path ≡ replicate n slash ++ skip_slashes path) × AtName (skip_slashes path))
        → ((skipelem path ≡ none) × ((n : ℕ) × (path ≡ replicate n slash)))
          ⊎ ((name rest : List ℕ) × (skipelem path ≡ some (name, rest)) × Parts path name rest)
    cases [] q (n, e, a) = inl (ground arith, (n, ground (arith, append-nil (replicate n slash))))
    cases (c ∷ cs) q (n, e, a) =
        let (w, p, b) = element_lem (c ∷ cs) in
        let (k, f, g) = skip_slashes_lem (behind (c ∷ cs)) in
        inr (
          kept (element (c ∷ cs)),
          skip_slashes (behind (c ∷ cs)),
          ground arith,
          record {
            before = n;
            elem = element (c ∷ cs);
            after = k;
            whole =
                e ∙ ap (λ l. replicate n slash ++ l) (q ∙ (w ∙ ap (λ l. element (c ∷ cs) ++ l) f));
            plain = p;
            some_byte = ground (arith, subst AtName q a);
            ended = end_or_slash (behind (c ∷ cs)) (skip_slashes (behind (c ∷ cs))) k b f g;
            next = g;
            name_of = refl;
          },
        )
