-- ===== src/Validation/Format/Uuid.antt =====
-- What `is_uuid` accepts, as a grammar: groups of 8, 4, 4, 4 and 12 hexadecimal digits with dashes
-- between them.
use mathlib.Core.Path.{subst, subst₂}
use rustly_core.Base.{
  ℕ, zero, suc, ◌+◌, String, ◌≡◌, refl, ◌↔◌, Bool, true, false, not, ◌&&◌, List, [], ◌∷◌, arith,
}
use rustly_core.Base.Lists.{length}
use rustly_core.Base.Text.{codes, encode}
use rustly_core.Validation.Format.{is_dash_pos, is_ascii_hexdigit, uuid_bytes, is_uuid}

abbrev pub End : List ℕ → Type 0
End [] = Unit {0}
End (b ∷ bs) = ⊥

abbrev pub Dash : (List ℕ → Type 0) → List ℕ → Type 0
Dash P [] = ⊥
Dash P (b ∷ bs) = (b ≡ b'-') × P bs

abbrev pub Hex : (List ℕ → Type 0) → List ℕ → Type 0
Hex P [] = ⊥
Hex P (b ∷ bs) = (is_ascii_hexdigit b ≡ true) × P bs

abbrev pub Group : ℕ → (List ℕ → Type 0) → List ℕ → Type 0
Group zero P = P
Group (suc n) P = Hex (Group n P)

abbrev pub UuidText : List ℕ → Type 0
UuidText = Group 8 (Dash (Group 4 (Dash (Group 4 (Dash (Group 4 (Dash (Group 12 End))))))))

-- From the position `i` on, the loop accepts exactly the texts of length `m` with the property.
record Reads (i m : ℕ) (P : List ℕ → Type 0) : Type 0 where
  accepted : (bs : List ℕ) → length bs ≡ m → uuid_bytes i bs ≡ true → P bs
  sized : (bs : List ℕ) → P bs → length bs ≡ m
  accepts : (bs : List ℕ) → P bs → uuid_bytes i bs ≡ true

Reads-End : (i : ℕ) → Reads i 0 End
unfolding uuid_bytes
Reads-End i = record { accepted = accepted_end; sized = sized_end; accepts = accepts_end }
  where
    accepted_end : (bs : List ℕ) → length bs ≡ 0 → uuid_bytes i bs ≡ true → End bs
    accepted_end [] e h = tt
    accepted_end (b ∷ bs) e h = ground arith

    sized_end : (bs : List ℕ) → End bs → length bs ≡ 0
    sized_end [] h = refl
    sized_end (b ∷ bs) h = absurd h

    accepts_end : (bs : List ℕ) → End bs → uuid_bytes i bs ≡ true
    accepts_end [] h = refl
    accepts_end (b ∷ bs) h = absurd h

module _ (i m : ℕ) (P : List ℕ → Type 0) (r : Reads (suc i) m P) where
  Dash-accepted :
      (bs : List ℕ) → is_dash_pos i ≡ true → length bs ≡ suc m → uuid_bytes i bs ≡ true → Dash P bs
  unfolding uuid_bytes
  Dash-accepted [] d e h = ground arith
  Dash-accepted (b ∷ bs) d e h =
      (ground (arith, d, h), r.accepted bs (ground arith) (ground (arith, d, h)))

  Dash-accepts : (bs : List ℕ) → is_dash_pos i ≡ true → Dash P bs → uuid_bytes i bs ≡ true
  unfolding uuid_bytes
  Dash-accepts [] d h = absurd h
  Dash-accepts (b ∷ bs) d (e, h) = ground (arith, d, e, r.accepts bs h)

  Dash-sized : (bs : List ℕ) → Dash P bs → length bs ≡ suc m
  Dash-sized [] h = absurd h
  Dash-sized (b ∷ bs) (e, h) = ground (arith, r.sized bs h)

  Reads-Dash : is_dash_pos i ≡ true → Reads i (suc m) (Dash P)
  Reads-Dash d = record {
    accepted = λ bs. Dash-accepted bs d;
    sized = Dash-sized;
    accepts = λ bs. Dash-accepts bs d;
  }

  Hex-accepted :
      (bs : List ℕ) → is_dash_pos i ≡ false → length bs ≡ suc m → uuid_bytes i bs ≡ true → Hex P bs
  unfolding uuid_bytes
  Hex-accepted [] d e h = ground arith
  Hex-accepted (b ∷ bs) d e h =
      (ground (arith, d, h), r.accepted bs (ground arith) (ground (arith, d, h)))

  Hex-accepts : (bs : List ℕ) → is_dash_pos i ≡ false → Hex P bs → uuid_bytes i bs ≡ true
  unfolding uuid_bytes
  Hex-accepts [] d h = absurd h
  Hex-accepts (b ∷ bs) d (e, h) = ground (arith, d, e, r.accepts bs h)

  Hex-sized : (bs : List ℕ) → Hex P bs → length bs ≡ suc m
  Hex-sized [] h = absurd h
  Hex-sized (b ∷ bs) (e, h) = ground (arith, r.sized bs h)

  Reads-Hex : is_dash_pos i ≡ false → Reads i (suc m) (Hex P)
  Reads-Hex d = record {
    accepted = λ bs. Hex-accepted bs d;
    sized = Hex-sized;
    accepts = λ bs. Hex-accepts bs d;
  }

-- None of the `n` positions from `i` on is that of a dash.
abbrev no_dash : ℕ → ℕ → Bool
no_dash zero i = true
no_dash (suc n) i = not (is_dash_pos i) && no_dash n (suc i)

Reads-Group :
    (n i j m l : ℕ) (P : List ℕ → Type 0)
    → no_dash n i ≡ true
    → n + i ≡ j
    → n + m ≡ l
    → Reads j m P
    → Reads i l (Group n P)
Reads-Group zero i j m l P d e f r =
    let at : j ≡ i = omega arith in
    let long : m ≡ l = omega arith in subst₂ (λ a b. Reads a b P) at long r
Reads-Group (suc n) i j m l P d e f r =
    let long : suc (n + m) ≡ l = omega arith in
    let rest = Reads-Group n (suc i) j m (n + m) P (ground (arith, d)) (omega arith) refl r in
    subst (λ b. Reads i b (Group (suc n) P)) long
      (Reads-Hex i (n + m) (Group n P) rest (ground (arith, d)))

Reads-UuidText : Reads 0 36 UuidText
Reads-UuidText = Reads-Group 8 0 8 28 36 _ refl refl refl (
    Reads-Dash 8 27 _
      (Reads-Group 4 9 13 23 27 _ refl refl refl (
        Reads-Dash 13 22 _
          (Reads-Group 4 14 18 18 22 _ refl refl refl (
            Reads-Dash 18 17 _
              (Reads-Group 4 19 23 13 17 _ refl refl refl (
                Reads-Dash 23 12 _ (Reads-Group 12 24 36 0 12 _ refl refl refl (Reads-End 36))
                  refl))
              refl))
          refl))
      refl)

-- `is_uuid` accepts a text exactly if its bytes are groups of 8, 4, 4, 4 and 12 hexadecimal digits
-- with a dash between each two of them, and nothing else.
pub is_uuid_lem : (s : String) → (is_uuid s ≡ true) ↔ UuidText (encode (codes s))
unfolding is_uuid
is_uuid_lem s =
    let bytes = encode (codes s) in
    let r = Reads-UuidText in
    (
      λ h. r.accepted bytes (ground (arith, h)) (ground (arith, h)),
      λ h. ground (arith, r.sized bytes h, r.accepts bytes h),
    )
