-- ===== src/Setup/Address.antt =====
-- model/utils.cpp: verifyIP, which takes the text of an IPv4 address.
use simple_task_queue.Common.{
  ℕ, ◌+◌, ◌-◌, ◌*◌, ◌≤◌, ◌≡◌, ◌↔◌, refl, sym, ap, ◌∙◌, inl, inr, Bool, true, false, if◌then◌else◌,
  [], ◌∷◌, ◌++◌, append_assoc, Str, length, arith,
}
use native.Mathlib.Decide.{dec_le}
use simple_task_queue.Setup.Regex.{
  Regex, char_range, then_, or_, maybe, regex_match, Describes, regex_match-Describes,
}

abbrev digit : Regex
digit = char_range 48 57

-- 25[0-5]|2[0-4][0-9]|[01]?[0-9][0-9]?
abbrev octet : Regex
octet = or_ (then_ (char_range 50 50) (then_ (char_range 53 53) (char_range 48 53))) (
    or_ (then_ (char_range 50 50) (then_ (char_range 48 52) digit))
      (then_ (maybe (char_range 48 49)) (then_ digit (maybe digit))))

abbrev dotted : Regex
dotted = then_ octet (char_range 46 46)

-- ^(octet\.){3}octet$
abbrev ip_regex : Regex
ip_regex = then_ dotted (then_ dotted (then_ dotted octet))

unfoldable pub verify_ip : Str → ℕ
verify_ip s = if regex_match ip_regex s then 0 else 1

abbrev AllDigits : Str → Type 0
AllDigits [] = Unit {0}
AllDigits (c ∷ s) = (48 ≤ c) × (c ≤ 57) × AllDigits s

-- The number that digits write, `n` those in front of them.
abbrev pub value : ℕ → Str → ℕ
value n [] = n
value n (c ∷ s) = value (n * 10 + (c - 48)) s

-- One to three digits, of a number of at most 255.
abbrev IsOctet : Str → Type 0
IsOctet s = (1 ≤ length s) × (length s ≤ 3) × AllDigits s × (value 0 s ≤ 255)

-- Four such numbers with dots between them.
abbrev pub IsAddress : Str → Type 0
IsAddress s =
    (a : Str) × (b : Str) × (c : Str) × (d : Str) × (s ≡ a ++ 46 ∷ (b ++ 46 ∷ (c ++ 46 ∷ d)))
    × IsOctet a
    × IsOctet b
    × IsOctet c
    × IsOctet d

octet-IsOctet : (p : Str) → Describes octet p → IsOctet p
octet-IsOctet p (inl (x, y, e, (c, f, l, u), (z, w, g, (c', h, l', u'), (c'', k, l'', u'')))) =
    rw (e, f, g, h, k) (omega arith)
octet-IsOctet p
      (inr (inl (x, y, e, (c, f, l, u), (z, w, g, (c', h, l', u'), (c'', k, l'', u''))))) =
    rw (e, f, g, h, k) (omega arith)
octet-IsOctet p
      (inr (inr (x, y, e, inl (c, f, l, u), (z, w, g, (c', h, l', u'), inl (c'', k, l'', u''))))) =
    rw (e, f, g, h, k) (omega arith)
octet-IsOctet p (inr (inr (x, y, e, inl (c, f, l, u), (z, w, g, (c', h, l', u'), inr k)))) =
    rw (e, f, g, h, k) (omega arith)
octet-IsOctet p (inr (inr (x, y, e, inr f, (z, w, g, (c', h, l', u'), inl (c'', k, l'', u''))))) =
    rw (e, f, g, h, k) (omega arith)
octet-IsOctet p (inr (inr (x, y, e, inr f, (z, w, g, (c', h, l', u'), inr k)))) =
    rw (e, f, g, h, k) (omega arith)

three-octet : (a b c : ℕ) → IsOctet (a ∷ (b ∷ (c ∷ []))) → Describes octet (a ∷ (b ∷ (c ∷ [])))
three-octet a b c h = elim (dec_le a 49) [
  | yes p ↦ inr (
      inr (
        a ∷ [],
        b ∷ (c ∷ []),
        refl,
        inl (a, refl, omega arith, p),
        (
          b ∷ [],
          c ∷ [],
          refl,
          (b, refl, omega arith, omega arith),
          inl (c, refl, omega arith, omega arith),
        ),
      ))
  | no p ↦ elim (dec_le b 52) [
    | yes q ↦ inr (
        inl (
          a ∷ [],
          b ∷ (c ∷ []),
          refl,
          (a, refl, omega arith, omega arith),
          (b ∷ [], c ∷ [], refl, (b, refl, omega arith, q), (c, refl, omega arith, omega arith)),
        ))
    | no q ↦ inl (
      a ∷ [],
      b ∷ (c ∷ []),
      refl,
      (a, refl, omega arith, omega arith),
      (
        b ∷ [],
        c ∷ [],
        refl,
        (b, refl, omega arith, omega arith),
        (c, refl, omega arith, omega arith),
      ),
    )
  ]
]

IsOctet-octet : (p : Str) → IsOctet p → Describes octet p
IsOctet-octet [] h = absurd (omega arith)
IsOctet-octet (a ∷ []) h = inr (
    inr (
      [],
      a ∷ [],
      refl,
      inr refl,
      (a ∷ [], [], refl, (a, refl, omega arith, omega arith), inr refl),
    ))
IsOctet-octet (a ∷ (b ∷ [])) h = inr (
    inr (
      [],
      a ∷ (b ∷ []),
      refl,
      inr refl,
      (
        a ∷ [],
        b ∷ [],
        refl,
        (a, refl, omega arith, omega arith),
        inl (b, refl, omega arith, omega arith),
      ),
    ))
IsOctet-octet (a ∷ (b ∷ (c ∷ []))) h = three-octet a b c h
IsOctet-octet (a ∷ (b ∷ (c ∷ (d ∷ s)))) h = absurd (omega arith)

-- An octet with its dot.
dotted-IsOctet : (p : Str) → Describes dotted p → (a : Str) × (p ≡ a ++ 46 ∷ []) × IsOctet a
dotted-IsOctet p (x, y, e, d, (c, f, l, u)) =
    let is_dot : c ≡ 46 = omega arith in
    (x, e ∙ ap (λ z. x ++ z) (f ∙ ap (λ z. z ∷ []) is_dot), octet-IsOctet x d)

IsOctet-dotted : (a : Str) → IsOctet a → Describes dotted (a ++ 46 ∷ [])
IsOctet-dotted a h = (a, 46 ∷ [], refl, IsOctet-octet a h, (46, refl, omega arith, omega arith))

with_dot : (a t : Str) → a ++ 46 ∷ t ≡ (a ++ 46 ∷ []) ++ t
with_dot a t = sym (append_assoc a (46 ∷ []) t)

joined :
    (a b c d : Str)
    → (a ++ 46 ∷ []) ++ ((b ++ 46 ∷ []) ++ ((c ++ 46 ∷ []) ++ d))
      ≡ a ++ 46 ∷ (b ++ 46 ∷ (c ++ 46 ∷ d))
joined a b c d =
    sym (with_dot a ((b ++ 46 ∷ []) ++ ((c ++ 46 ∷ []) ++ d)))
    ∙ ap (λ z. a ++ 46 ∷ z)
        (sym (with_dot b ((c ++ 46 ∷ []) ++ d)) ∙ ap (λ z. b ++ 46 ∷ z) (sym (with_dot c d)))

ip-IsAddress : (s : Str) → Describes ip_regex s → IsAddress s
ip-IsAddress s (x, y, e, dx, (z, w, f, dz, (u, v, g, du, dv))) =
    let (a, ea, ha) = dotted-IsOctet x dx in
    let (b, eb, hb) = dotted-IsOctet z dz in
    let (c, ec, hc) = dotted-IsOctet u du in
    (a, b, c, v, cc (e, f, g, ea, eb, ec, joined a b c v), ha, hb, hc, octet-IsOctet v dv)

IsAddress-ip : (s : Str) → IsAddress s → Describes ip_regex s
IsAddress-ip s (a, b, c, d, e, ha, hb, hc, hd) = (
  a ++ 46 ∷ [],
  b ++ 46 ∷ (c ++ 46 ∷ d),
  e ∙ with_dot a (b ++ 46 ∷ (c ++ 46 ∷ d)),
  IsOctet-dotted a ha,
  (
    b ++ 46 ∷ [],
    c ++ 46 ∷ d,
    with_dot b (c ++ 46 ∷ d),
    IsOctet-dotted b hb,
    (c ++ 46 ∷ [], d, with_dot c d, IsOctet-dotted c hc, IsOctet-octet d hd),
  ),
)

choice : (b : Bool) → (◌≡◌ {A = ℕ} (if b then 0 else 1) 0) ↔ (b ≡ true)
choice true = (λ h. refl, λ h. refl)
choice false = (λ h. absurd (omega arith), λ h. absurd (cc h))

-- verifyIP gives 0 exactly for four numbers of at most 255, each written with one to three digits,
-- leading zeros allowed, and with one dot between any two.
pub verify_ip-IsAddress : (s : Str) → (verify_ip s ≡ 0) ↔ IsAddress s
unfolding verify_ip
verify_ip-IsAddress s = (
  λ h.
      ip-IsAddress s ((regex_match-Describes ip_regex s).0 ((choice (regex_match ip_regex s)).0 h)),
  λ a.
      (choice (regex_match ip_regex s)).1 ((regex_match-Describes ip_regex s).1 (IsAddress-ip s a)),
)
