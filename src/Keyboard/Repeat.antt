-- ===== src/Keyboard/Repeat.antt =====
-- kernel/input/keyboard_driver.c: the repetition that the keyboard sends while a key is down.
use naw_os.Base.{
  ℕ, ◌+◌, ◌%◌, ◌<◌, ◌≡◌, ◌≢◌, ◌∙◌, refl, ap, Bool, true, false, Bool-cases, inl, inr, ◌||◌, Option,
  none, some, length, length-set, get_or, set, get_or-set_self, arith, leb, ltb, ◌==◌, ne→==,
  if◌then◌else◌,
}
use naw_os.Keyboard.{
  Keyboard, KeyboardEvent, scancode_map, scancode_shift_map, translate_plain, translate_extended,
  keyboard_driver_translate_scancode, keyboard_driver_handle_irq,
}

-- Both arrays have an element for each of the 128 keys.
pub record IsValid (kb : Keyboard) : Type 0 where
  pub keys : length kb.key_down ≡ 128
  pub extended_keys : length kb.extended_key_down ≡ 128

translate_plain-IsValid : (s : ℕ) (kb : Keyboard) → IsValid kb → IsValid (translate_plain s kb).1
unfolding translate_plain
translate_plain-IsValid s kb v = elim (Bool-cases (leb 128 s)) [
  | inl e ↦ rw e (record {
    keys = length-set kb.key_down (s % 128) false ∙ v.keys;
    extended_keys = v.extended_keys;
  })
  | inr e ↦ elim (Bool-cases (get_or kb.key_down s false)) [
    | inl f ↦ rw (e, f) v
    | inr f ↦
        rw (e, f)
          (record {
            keys = length-set kb.key_down s true ∙ v.keys;
            extended_keys = v.extended_keys;
          })
  ]
]

translate_extended-IsValid :
    (s : ℕ) (kb : Keyboard) → IsValid kb → IsValid (translate_extended s kb).1
unfolding translate_extended
translate_extended-IsValid s kb v = elim (Bool-cases (leb 128 (s % 256))) [
  | inl e ↦ rw e (record {
    keys = v.keys;
    extended_keys = length-set kb.extended_key_down (s % 256 % 128) false ∙ v.extended_keys;
  })
  | inr e ↦ elim (Bool-cases (get_or kb.extended_key_down (s % 256 % 128) false)) [
    | inl f ↦ rw (e, f) v
    | inr f ↦
        rw (e, f)
          (record {
            keys = v.keys;
            extended_keys = length-set kb.extended_key_down (s % 256 % 128) true ∙ v.extended_keys;
          })
  ]
]

translate-IsValid :
    (s : ℕ) (kb : Keyboard) → IsValid kb → IsValid (keyboard_driver_translate_scancode s kb).1
unfolding keyboard_driver_translate_scancode
translate-IsValid s kb v = elim (Bool-cases (s == 0)) [
  | inl e ↦ rw e v
  | inr e ↦ elim (Bool-cases (ltb 255 s)) [
    | inl f ↦ rw (e, f) (translate_extended-IsValid s kb v)
    | inr f ↦ elim (Bool-cases ((s == 42) || (s == 54))) [
      | inl g ↦
          rw (e, f, g)
            (record {
              keys = length-set kb.key_down s true ∙ v.keys;
              extended_keys = v.extended_keys;
            })
      | inr g ↦ elim (Bool-cases ((s == 170) || (s == 182))) [
        | inl h ↦
            rw (e, f, g, h)
              (record {
                keys = length-set kb.key_down (s % 128) false ∙ v.keys;
                extended_keys = v.extended_keys;
              })
        | inr h ↦ rw (e, f, g, h) (translate_plain-IsValid s kb v)
      ]
    ]
  ]
]

pick :
    (b : Bool) (x y : Option KeyboardEvent × Keyboard)
    → IsValid x.1
    → IsValid y.1
    → IsValid (if b then x else y).1
pick true x y h k = h
pick false x y h k = k

-- Every byte keeps the 128 elements of the two arrays of keys.
pub keyboard_driver_handle_irq-IsValid :
    (s : ℕ) (kb : Keyboard) → IsValid kb → IsValid (keyboard_driver_handle_irq s kb).1
unfolding keyboard_driver_handle_irq
keyboard_driver_handle_irq-IsValid s kb v = elim (Bool-cases (s == 224)) [
  | inl e ↦ rw e (record { keys = v.keys; extended_keys = v.extended_keys })
  | inr e ↦ rw e (
      pick kb.extended_scancode_prefix _ _
        (translate-IsValid (57344 + s) (record kb { extended_scancode_prefix = false })
          (record { keys = v.keys; extended_keys = v.extended_keys }))
        (translate-IsValid s kb v))
]

-- A plain key's code, and its release.
irq-plain :
    (s : ℕ) (kb : Keyboard)
    → 0 < s
    → s < 256
    → s ≢ 42
    → s ≢ 54
    → s ≢ 170
    → s ≢ 182
    → s ≢ 224
    → kb.extended_scancode_prefix ≡ false
    → keyboard_driver_handle_irq s kb ≡ translate_plain s kb
unfolding keyboard_driver_handle_irq keyboard_driver_translate_scancode
irq-plain s kb pos lt a b c d e p = rw (ne→== s 224 e) (
    ap
      (λ x.
        if x
        then keyboard_driver_translate_scancode (57344 + s)
            (record kb { extended_scancode_prefix = false })
        else keyboard_driver_translate_scancode s kb)
      p
    ∙ code_plain)
  where
    in_byte : ltb 255 s ≡ false
    in_byte = ground arith

    code_plain : keyboard_driver_translate_scancode s kb ≡ translate_plain s kb
    code_plain =
        rw
          (
            ne→== s 0 (λ z. omega arith),
            in_byte,
            ne→== s 42 a,
            ne→== s 54 b,
            ne→== s 170 c,
            ne→== s 182 d,
          )
          refl

event : ℕ → Keyboard → KeyboardEvent
event s kb = record {
  scancode = s;
  character = get_or (if kb.shift_pressed then scancode_shift_map else scancode_map) s 0;
  pressed = true;
  extended = false;
}

abbrev with_key : Keyboard → ℕ → Bool → Keyboard
with_key kb s down = record kb { key_down = set kb.key_down s down }

plain-press :
    (s : ℕ) (kb : Keyboard)
    → s < 128
    → get_or kb.key_down s false ≡ false
    → translate_plain s kb ≡ (some (event s kb), with_key kb s true)
unfolding translate_plain event
plain-press s kb lt up = elim (Bool-cases (leb 128 s)) [
  | inl e ↦ absurd (ground (arith, e))
  | inr e ↦ rw (e, up) refl
]

plain-held :
    (s : ℕ) (kb : Keyboard)
    → s < 128
    → get_or kb.key_down s false ≡ true
    → translate_plain s kb ≡ (none, kb)
unfolding translate_plain
plain-held s kb lt down = elim (Bool-cases (leb 128 s)) [
  | inl e ↦ absurd (ground (arith, e))
  | inr e ↦ rw (e, down) refl
]

plain-release :
    (s : ℕ) (kb : Keyboard) → s < 128 → translate_plain (s + 128) kb ≡ (none, with_key kb s false)
unfolding translate_plain
plain-release s kb lt = elim (Bool-cases (leb 128 (s + 128))) [
  | inr e ↦ absurd (ground (arith, e))
  | inl e ↦ rw e (ap (λ k. (none, with_key kb k false)) {x = (s + 128) % 128} {y = s} (omega arith))
]

-- With no prefix pending, for a key other than the shift keys and other than code 96 that is up, its
-- code makes an event; the code again makes none; after the code of its release, it makes an event
-- again.
pub keyboard_driver_handle_irq-repeat :
    (s : ℕ) (kb : Keyboard)
    → IsValid kb
    → 0 < s
    → s < 128
    → s ≢ 42
    → s ≢ 54
    → s ≢ 96
    → kb.extended_scancode_prefix ≡ false
    → get_or kb.key_down s false ≡ false
    → ((keyboard_driver_handle_irq s kb).0 ≢ none)
      × ((keyboard_driver_handle_irq s (keyboard_driver_handle_irq s kb).1).0 ≡ none)
      × ((keyboard_driver_handle_irq s
            (keyboard_driver_handle_irq (s + 128) (keyboard_driver_handle_irq s kb).1).1).0
          ≢ none)
keyboard_driver_handle_irq-repeat s kb v pos lt a b c p up = rw first (
  λ h. absurd (cc h),
  ap (λ (x : Option KeyboardEvent × Keyboard). x.0) second,
  rw third (rw fourth (λ h. absurd (cc h))),
)
  where
    plain :
        (k : Keyboard)
        → k.extended_scancode_prefix ≡ false
        → keyboard_driver_handle_irq s k ≡ translate_plain s k
    plain k =
        irq-plain s k pos (omega (arith, lt)) a b (λ e. omega (arith, e, lt))
          (λ e. omega (arith, e, lt)) (λ e. omega (arith, e, lt))

    first : keyboard_driver_handle_irq s kb ≡ (some (event s kb), with_key kb s true)
    first = plain kb p ∙ plain-press s kb lt up

    second : keyboard_driver_handle_irq s (with_key kb s true) ≡ (none, with_key kb s true)
    second =
        plain (with_key kb s true) p
        ∙ plain-held s (with_key kb s true) lt
            (get_or-set_self kb.key_down s true false (omega (arith, v.keys, lt)))

    third :
        keyboard_driver_handle_irq (s + 128) (with_key kb s true)
        ≡ (none, with_key (with_key kb s true) s false)
    third =
        irq-plain (s + 128) (with_key kb s true) (omega (arith, pos)) (omega (arith, lt))
          (λ e. omega (arith, e)) (λ e. omega (arith, e)) (λ e. a (omega (arith, e)))
          (λ e. b (omega (arith, e))) (λ e. c (omega (arith, e))) p
        ∙ plain-release s (with_key kb s true) lt

    fourth : keyboard_driver_handle_irq s (with_key (with_key kb s true) s false) ≡ (
      some (event s (with_key (with_key kb s true) s false)),
      with_key (with_key (with_key kb s true) s false) s true,
    )
    fourth =
        plain (with_key (with_key kb s true) s false) p
        ∙ plain-press s (with_key (with_key kb s true) s false) lt (
            get_or-set_self (set kb.key_down s true) s false false
              (omega (arith, length-set kb.key_down s true, v.keys, lt)))
