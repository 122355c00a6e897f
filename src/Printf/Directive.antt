-- ===== src/Printf/Directive.antt =====
-- Every directive but the count puts a run of characters, and the format gets shorter.
use quark_os.Base.{
  ℕ, zero, suc, ◌+◌, ◌-◌, ◌%◌, ◌^◌, ◌≤◌, ◌≡◌, ◌∙◌, refl, ap, sym, Bool, true, false, ◌||◌, inl, inr,
  List, [], ◌∷◌, ◌++◌, arith, ◌==◌, ltb, if◌then◌else◌, Bool-cases, ◌∉◌,
}
use quark_os.Ram.{strnlen}
use quark_os.Printf.{Out, Flags, put, put_times, put_list, number}
use quark_os.Printf.Emit.{replicate, put_list-append, put_times-replicate}
use quark_os.Printf.Number.{number_text, number-number_text}
use quark_os.Printf.Suffix.{Within, rest_of-Within, first_ne}
use quark_os.Printf.Format.{
  first, count_of, Spec, Print, null_text, take, limit_of, put_from, in_field, print_char,
  print_string, print_pointer, print_number, convert,
}

-- The output grows by a text.
abbrev pub Emits : (end : ℕ) → Out → Out → Type 0
Emits end o o' = (text : List ℕ) × (o' ≡ put_list end text o)

module _ (end : ℕ) where
  pub Emits-refl : (o : Out) → Emits end o o
  unfolding put_list
  Emits-refl o = ([], refl)

  pub Emits-trans : (o p q : Out) → Emits end o p → Emits end p q → Emits end o q
  Emits-trans o p q (s, e) (t, f) =
      (s ++ t, f ∙ ap (put_list end t) e ∙ sym (put_list-append end s t o))

  pub Emits-put : (c : ℕ) (o : Out) → Emits end o (put end c o)
  unfolding put_list
  Emits-put c o = (c ∷ [], refl)

  Emits-put_times : (n c : ℕ) (o : Out) → Emits end o (put_times end n c o)
  Emits-put_times n c o = (replicate n c, put_times-replicate end n c o)

module _ (buf end : ℕ) (words : ℕ → ℕ) where
  Emits-put_from : (len s : ℕ) (o : Out) → Emits end o (put_from buf end words len s o)
  unfolding put_from
  Emits-put_from zero s o = Emits-refl end o
  Emits-put_from (suc len) s o =
      Emits-trans end o _ _ (Emits-put end (o.ram (s % 2 ^ 32)) o)
        (Emits-put_from len (s + 1) (put end (o.ram (s % 2 ^ 32)) o))

  Emits-in_field :
      (f : Flags) (width len : ℕ) (body : Out → Out) (o : Out)
      → ((q : Out) → Emits end q (body q))
      → Emits end o (in_field buf end words f width len body o)
  Emits-in_field f width len body o h = elim (Bool-cases f.left) [
    | inl e ↦ rw e (Emits-trans end o _ _ (h o) (Emits-put_times end (width - len) b' ' (body o)))
    | inr e ↦ rw e (Emits-trans end o _ _ (Emits-put_times end (width - len) b' ' o) (h _))
  ]

  Emits-if :
      (b : Bool) (o p q : Out) → Emits end o p → Emits end o q → Emits end o (if b then p else q)
  Emits-if true o p q h k = h
  Emits-if false o p q h k = k

  Emits-number :
      (f : Flags) (num base size precision : ℕ) (o : Out)
      → 2 ≤ base
      → base ≤ 36
      → Emits end o (number end f num base size precision o)
  Emits-number f num base size precision o lo hi = (
    number_text f num base size precision,
    number-number_text end f num base size precision o lo hi,
  )

  Emits-print_char : (s : Spec) (o : Out) → Emits end o (print_char buf end words s o)
  unfolding print_char
  Emits-print_char s o =
      Emits-in_field s.flags (count_of s.width) 1 _ o (Emits-put end (words s.arg % 256))

  Emits-print_string : (s : Spec) (o : Out) → Emits end o (print_string buf end words s o)
  unfolding print_string
  Emits-print_string s o =
      let at = words s.arg % 2 ^ 32 in
      let limit = limit_of s.precision in
      let null_len = if ltb limit 6 then limit else 6 in
      Emits-if (ltb at 4096) o _ _
        (Emits-in_field s.flags (count_of s.width) null_len _ o
          (λ q. (take null_len null_text, refl)))
        (Emits-in_field s.flags (count_of s.width) (strnlen limit at o.ram) _ o
          (Emits-put_from (strnlen limit at o.ram) at))

  Emits-print_pointer : (s : Spec) (o : Out) → Emits end o (print_pointer buf end words s o)
  unfolding print_pointer
  Emits-print_pointer s o = Emits-number _ _ 16 _ _ o (omega arith) (omega arith)

  Emits-print_number :
      (base : ℕ) (s : Spec) (o : Out)
      → 2 ≤ base
      → base ≤ 36
      → Emits end o (print_number buf end words base s o)
  unfolding print_number
  Emits-print_number base s o lo hi = Emits-number _ _ base _ _ o lo hi

  -- What a directive without a count does, from the format `fmt` on.
  abbrev pub Steps : (fmt : List ℕ) → Out → Print → Type 0
  Steps fmt o p = Emits end o p.out × Within p.fmt fmt

  Steps-if :
      (b : Bool) (fmt : List ℕ) (o : Out) (p q : Print)
      → Steps fmt o p
      → Steps fmt o q
      → Steps fmt o (if b then p else q)
  Steps-if true fmt o p q h k = h
  Steps-if false fmt o p q h k = k

  pub convert-Steps :
      (s : Spec) (o : Out) → b'n' ∉ s.fmt → Steps s.fmt o (convert buf end words s o)
  unfolding convert
  convert-Steps s o h =
      let cs = rest_of-Within s.fmt in
      let signed = record s { flags = record s.flags { sign = true } } in
      let large = record s { flags = record s.flags { large = true } } in
      let c = first s.fmt in
      Steps-if (c == b'c') s.fmt o _ _ (Emits-print_char s o, cs)
        (Steps-if (c == b's') s.fmt o _ _ (Emits-print_string s o, cs)
          (Steps-if (c == b'p') s.fmt o _ _ (Emits-print_pointer s o, cs)
            (rw (first_ne s.fmt h) (
              Steps-if (c == b'%') s.fmt o _ _ (Emits-put end b'%' o, cs)
                (Steps-if (c == b'o') s.fmt o _ _
                  (Emits-print_number 8 s o (omega arith) (omega arith), cs)
                  (Steps-if (c == b'X') s.fmt o _ _
                    (Emits-print_number 16 large o (omega arith) (omega arith), cs)
                    (Steps-if (c == b'x') s.fmt o _ _
                      (Emits-print_number 16 s o (omega arith) (omega arith), cs)
                      (Steps-if (c == b'd' || c == b'i') s.fmt o _ _
                        (Emits-print_number 10 signed o (omega arith) (omega arith), cs)
                        (Steps-if (c == b'u') s.fmt o _ _
                          (Emits-print_number 10 s o (omega arith) (omega arith), cs)
                          (Steps-if (c == 0) s.fmt o _ _
                            (Emits-put end b'%' o, (omega arith, λ n. n))
                            (
                              Emits-trans end o _ _ (Emits-put end b'%' o) (Emits-put end c _),
                              cs,
                            )))))))))))
