-- ===== src/JsonRpc/Message/SmallJson.antt =====
-- A small type of values that has the laws which repository_context_provider/json_rpc.rs relies on.
use pre_commit_review.Prelude.{
  ℕ, zero, suc, ◌+◌, ◌≤◌, max, ◌≡◌, refl, sym, ap, ◌∙◌, Bool, true, false, ◌&&◌, [], ◌∷◌, ◌++◌,
  Option, none, some, Bytes, arith, ltb, length, take, drop, take-length, drop-length,
  length-append, append_assoc, append-nil, if◌then◌else◌, ◌==◌,
}
use pre_commit_review.Prelude.Texts.{text_eq, text_eq_self}
use pre_commit_review.JsonRpc.Message.{Json}
use pre_commit_review.JsonRpc.Message.SerdeJson.{IsJson, Shape, recursion_limit}

mutual
  pub data Value : Type 0 where
    text : Bytes → Value
    num : ℕ → Value
    map : Fields → Value

  pub data Fields : Type 0 where
    nil : Fields
    cons : Bytes → Value → Fields → Fields

unfoldable mutual
  pub same : Value → Value → Bool
  same (text s) (text t) = text_eq s t
  same (text s) (num n) = false
  same (text s) (map n) = false
  same (num m) (text t) = false
  same (num m) (num n) = m == n
  same (num m) (map n) = false
  same (map f) (text t) = false
  same (map f) (num n) = false
  same (map f) (map g) = same_fields f g

  pub same_fields : Fields → Fields → Bool
  same_fields nil nil = true
  same_fields nil (cons k v f) = false
  same_fields (cons k v f) nil = false
  same_fields (cons k v f) (cons j w g) = text_eq k j && same v w && same_fields f g

mutual
  unfolding same

  same_self : (v : Value) → same v v ≡ true
  same_self (text s) = text_eq_self s
  same_self (num n) = ground arith
  same_self (map f) = same_fields_self f

  same_fields_self : (f : Fields) → same_fields f f ≡ true
  same_fields_self nil = refl
  same_fields_self (cons k v f) = ground (arith, text_eq_self k, same_self v, same_fields_self f)

unfoldable pub field_of : Bytes → Fields → Option Value
field_of k nil = none
field_of k (cons j v f) = let rest = field_of k f in if text_eq k j then some v else rest

abbrev pub as_map : Value → Option Fields
as_map (text s) = none
as_map (num n) = none
as_map (map f) = some f

abbrev pub as_text : Value → Option Bytes
as_text (text s) = some s
as_text (num n) = none
as_text (map f) = none

abbrev pub as_num : Value → Option ℕ
as_num (text s) = none
as_num (num n) = some n
as_num (map f) = none

-- How deep maps are nested.
unfoldable mutual
  pub depth : Value → ℕ
  depth (text s) = 0
  depth (num n) = 0
  depth (map f) = suc (depth_fields f)

  pub depth_fields : Fields → ℕ
  depth_fields nil = 0
  depth_fields (cons k v f) = max (depth v) (depth_fields f)

unfoldable mutual
  size : Value → ℕ
  size (text s) = 1
  size (num n) = 1
  size (map f) = suc (size_fields f)

  size_fields : Fields → ℕ
  size_fields nil = 1
  size_fields (cons k v f) = suc (size v + size_fields f)

-- A value as bytes: a tag, then a text behind its length, a number, or fields.
unfoldable mutual
  pub encode : Value → Bytes
  encode (text s) = 0 ∷ length s ∷ s
  encode (num n) = 1 ∷ n ∷ []
  encode (map f) = 2 ∷ encode_fields f

  pub encode_fields : Fields → Bytes
  encode_fields nil = 0 ∷ []
  encode_fields (cons k v f) = 1 ∷ length k ∷ (k ++ (encode v ++ encode_fields f))

abbrev as_value : Option (Fields × Bytes) → Option (Value × Bytes)
as_value none = none
as_value (some (f, rest)) = some (map f, rest)

abbrev add_field : Bytes → Value → Option (Fields × Bytes) → Option (Fields × Bytes)
add_field k v none = none
add_field k v (some (f, rest)) = some (cons k v f, rest)

abbrev with_field :
    Bytes → (Bytes → Option (Fields × Bytes)) → Option (Value × Bytes) → Option (Fields × Bytes)
with_field k fields none = none
with_field k fields (some (v, rest)) = add_field k v (fields rest)

-- On fuel, which the length of the bytes is enough of.
unfoldable mutual
  pub decode : ℕ → Bytes → Option (Value × Bytes)
  decode zero bs = none
  decode (suc n) [] = none
  decode (suc n) (zero ∷ []) = none
  decode (suc n) (zero ∷ k ∷ bs) = some (text (take k bs), drop k bs)
  decode (suc n) (suc zero ∷ []) = none
  decode (suc n) (suc zero ∷ k ∷ bs) = some (num k, bs)
  decode (suc n) (suc (suc t) ∷ bs) = as_value (decode_fields n bs)

  pub decode_fields : ℕ → Bytes → Option (Fields × Bytes)
  decode_fields zero bs = none
  decode_fields (suc n) [] = none
  decode_fields (suc n) (zero ∷ bs) = some (nil, bs)
  decode_fields (suc n) (suc t ∷ []) = none
  decode_fields (suc n) (suc t ∷ k ∷ bs) =
      with_field (take k bs) (decode_fields n) (decode n (drop k bs))

mutual
  unfolding size encode

  size-length : (v : Value) → size v ≤ length (encode v)
  size-length (text s) = omega arith
  size-length (num n) = omega arith
  size-length (map f) = omega (arith, size_fields-length f)

  size_fields-length : (f : Fields) → size_fields f ≤ length (encode_fields f)
  size_fields-length nil = omega arith
  size_fields-length (cons k v f) = omega (
    arith,
    length-append k (encode v ++ encode_fields f),
    length-append (encode v) (encode_fields f),
    size-length v,
    size_fields-length f,
  )

mutual
  unfolding size encode decode

  decode-encode :
      (n : ℕ) (v : Value) (rest : Bytes) → size v ≤ n → decode n (encode v ++ rest) ≡ some (v, rest)
  decode-encode zero (text s) rest h = absurd (omega (arith, h))
  decode-encode zero (num k) rest h = absurd (omega (arith, h))
  decode-encode zero (map f) rest h = absurd (omega (arith, h))
  decode-encode (suc n) (text s) rest h = rw (take-length s rest, drop-length s rest) refl
  decode-encode (suc n) (num k) rest h = refl
  decode-encode (suc n) (map f) rest h =
      ap as_value (decode_fields-encode n f rest (omega (arith, h)))

  decode_fields-encode :
      (n : ℕ) (f : Fields) (rest : Bytes)
      → size_fields f ≤ n
      → decode_fields n (encode_fields f ++ rest) ≡ some (f, rest)
  decode_fields-encode zero nil rest h = absurd (omega (arith, h))
  decode_fields-encode zero (cons k v f) rest h = absurd (omega (arith, h))
  decode_fields-encode (suc n) nil rest h = refl
  decode_fields-encode (suc n) (cons k v f) rest h =
      rw
        (
          append_assoc k (encode v ++ encode_fields f) rest,
          append_assoc (encode v) (encode_fields f) rest,
          take-length k (encode v ++ (encode_fields f ++ rest)),
          drop-length k (encode v ++ (encode_fields f ++ rest)),
          decode-encode n v (encode_fields f ++ rest) (omega (arith, h)),
          decode_fields-encode n f rest (omega (arith, h)),
        )
        refl

some-injective : {A : Type 0} {a b : A} → ◌≡◌ {A = Option A} (some a) (some b) → a ≡ b
some-injective h = cc

-- All is read, and what is nested too deep is refused.
abbrev pub whole : Option (Value × Bytes) → Option Value
whole none = none
whole (some (v, [])) = if ltb (depth v) recursion_limit then some v else none
whole (some (v, b ∷ bs)) = none

abbrev pub small : Json Value Fields
small = record {
  from_slice = λ bytes. whole (decode (length bytes) bytes);
  to_vec = λ v. some (encode v);
  as_object = as_map;
  as_str = as_text;
  as_u64 = as_num;
  as_i64 = λ v. none;
  is_array = λ v. false;
  null = num 0;
  string = text;
  number = num;
  signed = λ z. num 0;
  object = map;
  same = same;
  empty = nil;
  get = field_of;
  insert = cons;
}

-- There are no floating-point numbers.
abbrev pub shape : Shape Value Fields
shape = record {
  depth = depth;
  map_depth = depth_fields;
  is_exact = λ v. true;
  is_exact_map = λ f. true;
}

decode-whole : (v : Value) → decode (length (encode v)) (encode v) ≡ some (v, [])
decode-whole v =
    ap (decode (length (encode v))) (sym (append-nil (encode v)))
    ∙ decode-encode (length (encode v)) v [] (size-length v)

pub small-IsJson : IsJson small shape
unfolding field_of depth
small-IsJson = record {
  decodes = λ v body d e h.
      ground (arith, ap (λ b. decode (length b) b) (some-injective h), decode-whole v);
  objects = λ o. refl;
  strings = λ s. refl;
  numbers = λ n h. refl;
  same_self = same_self;
  get_empty = λ k. refl;
  get_insert = λ j k v o. refl;
  depth_string = λ s. refl;
  depth_number = λ n. refl;
  depth_object = λ o. refl;
  depth_empty = refl;
  depth_insert = λ k v o. omega arith;
  exact_string = λ s. refl;
  exact_number = λ n. refl;
  exact_object = λ o. refl;
  exact_empty = refl;
  exact_insert = λ k v o h h'. refl;
}
