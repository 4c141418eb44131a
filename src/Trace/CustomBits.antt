-- ===== src/Trace/CustomBits.antt =====
-- The bits of the optional fields of a custom event: which are set, and that there is room for them.
use sapi_game.Base.{
  ℕ, suc, ◌+◌, ◌-◌, ◌*◌, ◌≤◌, ◌<◌, ◌≡◌, refl, ap, ◌∙◌, inl, inr, Bool, true, false, none, some,
  List, [], ◌∷◌, arith, if◌then◌else◌, Bool-cases, Option-cases, length,
}
use sapi_game.Wire.Raw.{Double}
use sapi_game.Trace.Texts.{text_get}
use sapi_game.Trace.Dictionary.{FieldRecord}
use sapi_game.Trace.Values.{CustomValue}
use sapi_game.Trace.Decoder.{bit_set}
use sapi_game.Trace.Session.{set_bit, Payload, is_given, count_optional, fill_bits}
use sapi_game.Trace.Emits.{else_branch}
use sapi_game.Trace.BitSets.{set_bit-other}

pub then_branch : {A : Type 0} (x y : A) (b : Bool) → b ≡ true → (if b then x else y) ≡ x
then_branch x y true h = refl
then_branch x y false h = cc

module _ (d : Double) where
  is_given-some :
      (f : FieldRecord) (values : Payload d) (v : CustomValue d)
      → text_get f.name values ≡ some v
      → is_given d values f ≡ true
  is_given-some f values v found = rw (found, is_given) refl

  is_given-none :
      (f : FieldRecord) (values : Payload d)
      → text_get f.name values ≡ none
      → is_given d values f ≡ false
  is_given-none f values absent = rw (absent, is_given) refl

  -- What a field does to the bits.
  pub fill_given :
      (f : FieldRecord) (fields : List FieldRecord) (values : Payload d) (v : CustomValue d) (i : ℕ)
      (bs : List ℕ)
      → text_get f.name values ≡ some v
      → f.optional ≡ true
      → fill_bits d (f ∷ fields) values i bs ≡ fill_bits d fields values (suc i) (set_bit i bs)
  fill_given f fields values v i bs found optional =
      then_branch _ _ f.optional optional
      ∙ ap (λ b. fill_bits d fields values (suc i) (if b then set_bit i bs else bs))
          (is_given-some f values v found)

  pub fill_absent :
      (f : FieldRecord) (fields : List FieldRecord) (values : Payload d) (i : ℕ) (bs : List ℕ)
      → text_get f.name values ≡ none
      → f.optional ≡ true
      → fill_bits d (f ∷ fields) values i bs ≡ fill_bits d fields values (suc i) bs
  fill_absent f fields values i bs absent optional =
      then_branch _ _ f.optional optional
      ∙ ap (λ b. fill_bits d fields values (suc i) (if b then set_bit i bs else bs))
          (is_given-none f values absent)

  pub fill_required :
      (f : FieldRecord) (fields : List FieldRecord) (values : Payload d) (i : ℕ) (bs : List ℕ)
      → f.optional ≡ false
      → fill_bits d (f ∷ fields) values i bs ≡ fill_bits d fields values i bs
  fill_required f fields values i bs required = rw required refl

  -- The bits before `i` stay as they are.
  pub fill_bits-before :
      (fields : List FieldRecord) (values : Payload d) (i j : ℕ) (bs : List ℕ)
      → j < i
      → bit_set (fill_bits d fields values i bs) j ≡ bit_set bs j
  fill_bits-before [] values i j bs below = refl
  fill_bits-before (f ∷ fields) values i j bs below = elim (Bool-cases f.optional) [
    | inr required ↦
        ap (λ z. bit_set z j) (fill_required f fields values i bs required)
        ∙ fill_bits-before fields values i j bs below
    | inl optional ↦ elim (Option-cases (text_get f.name values)) [
      | inl absent ↦
          ap (λ z. bit_set z j) (fill_absent f fields values i bs absent optional)
          ∙ fill_bits-before fields values (suc i) j bs (omega arith)
      | inr (v, found) ↦
          ap (λ z. bit_set z j) (fill_given f fields values v i bs found optional)
          ∙ (fill_bits-before fields values (suc i) j (set_bit i bs) (omega arith)
              ∙ set_bit-other i j bs (λ e. omega (arith, e)))
    ]
  ]

  length-set_bit : (i : ℕ) (bs : List ℕ) → length (set_bit i bs) ≡ length bs
  length-set_bit i [] = refl
  length-set_bit i (b ∷ bs) = ground (arith, length-set_bit (i - 8) bs)

  -- No bit is set from `i` on, and there is room for the optional fields.
  abbrev pub HasRoom : List FieldRecord → ℕ → List ℕ → Type 0
  HasRoom fields i bs =
      ((j : ℕ) → i ≤ j → bit_set bs j ≡ false) × (i + count_optional d fields ≤ 8 * length bs)

  pub given-HasRoom :
      (f : FieldRecord) (fields : List FieldRecord) (i : ℕ) (bs : List ℕ)
      → f.optional ≡ true
      → HasRoom (f ∷ fields) i bs
      → HasRoom fields (suc i) (set_bit i bs) × HasRoom fields (suc i) bs × (i < 8 * length bs)
  given-HasRoom f fields i bs optional (clear, room) =
      let more =
        then_branch (suc (count_optional d fields)) (count_optional d fields) f.optional optional in
      (
        (
          (λ j after. set_bit-other i j bs (λ e. omega (arith, e)) ∙ clear j (omega arith)),
          omega (arith, length-set_bit i bs, more, room),
        ),
        ((λ j after. clear j (omega arith)), omega (arith, more, room)),
        omega (arith, more, room),
      )

  pub required-HasRoom :
      (f : FieldRecord) (fields : List FieldRecord) (i : ℕ) (bs : List ℕ)
      → f.optional ≡ false
      → HasRoom (f ∷ fields) i bs
      → HasRoom fields i bs
  required-HasRoom f fields i bs required (clear, room) =
      let same =
        else_branch (suc (count_optional d fields)) (count_optional d fields) f.optional required in
      (clear, omega (arith, same, room))
