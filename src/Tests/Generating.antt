-- ===== src/Tests/Generating.antt =====
-- Made-up values, and files compared, at concrete inputs.
use sinq.Prelude.{
  ℕ, ◌+◌, ◌-◌, ◌%◌, ◌^◌, ◌<◌, ◌≡◌, refl, true, false, none, some, List, [], ◌∷◌, ◌++◌, Bytes, codes,
  length, get_elem?, equal, if◌then◌else◌, All, arith,
}
use sinq.Runner.{Worker, call, fail_assert}
use sinq.Runner.FileMatch.{opened, returned, compare_files}
use sinq.Runner.FileMatch.Pieces.{compare_files-equal}
use sinq.Luapi.Generate.{
  Generator, IsGenerator, signed_leb, random_int64, fake_take_one, fake_uuidv4, fake_trace,
  fake_phone,
}
use sinq.Luapi.Generate.Ranges.{random_int64-Between, fake_take_one-NotLast}
use sinq.Luapi.Generate.Texts.{
  IsUuid, IsTraceId, fake_uuidv4-IsUuid, fake_trace-IsTraceId, fake_phone-NoDigits,
}

abbrev counter : Generator
counter = record { State = ℕ; int64 = λ s. (s, s + 1); uint_n = λ n s. (s % n, s + 1) }

counter-IsGenerator : IsGenerator counter
counter-IsGenerator = record { in_range = λ n s h. grind arith }

-- From the lowest `int64` to the highest one.
random_int64-Between_example :
    ((random_int64 counter (2 ^ 63) (2 ^ 63 - 1) 5).0 < 2 ^ 64)
    × (signed_leb (2 ^ 63) (random_int64 counter (2 ^ 63) (2 ^ 63 - 1) 5).0 ≡ true)
    × (signed_leb (2 ^ 63 - 1) (random_int64 counter (2 ^ 63) (2 ^ 63 - 1) 5).0 ≡ false)
unfolding signed_leb
random_int64-Between_example =
    random_int64-Between counter counter-IsGenerator (2 ^ 63) (2 ^ 63 - 1) 5 (omega arith)
      (omega arith) refl

abbrev seven_eight : List ℕ
seven_eight = 7 ∷ 8 ∷ []

fake_take_one-NotLast_example :
    (i : ℕ) × (a : ℕ) × (s' : ℕ) × (fake_take_one counter seven_eight 5 ≡ some (some a, s'))
    × (get_elem? seven_eight i ≡ some a)
    × (i + 1 < length seven_eight)
fake_take_one-NotLast_example = fake_take_one-NotLast counter counter-IsGenerator 7 8 [] 5

fake_uuidv4-IsUuid_example : IsUuid (fake_uuidv4 counter 5).0
fake_uuidv4-IsUuid_example = fake_uuidv4-IsUuid counter 5

fake_trace-IsTraceId_example :
    (trace parent : Bytes) × ((fake_trace counter 0).0
      ≡ codes "00-" ++ (trace ++ (b'-' ∷ parent ++ codes "-01")))
    × IsTraceId 32 trace
    × IsTraceId 16 parent
fake_trace-IsTraceId_example = fake_trace-IsTraceId counter 0

fake_phone-NoDigits_example :
    (code number : Bytes) × ((fake_phone counter (codes "+1" ∷ []) 3).0 ≡ code ++ number)
    × (length number ≡ 10)
    × All (λ b. b < 10) number
fake_phone-NoDigits_example = fake_phone-NoDigits counter (codes "+1" ∷ []) 3

abbrev idle : Worker
idle = record { request_idx = 0; max_request_idx = 0; assertion_failures = [] }

compare_files-equal_example :
    compare_files 2 idle
      (b'o' ∷ codes "ut")
      (opened (record { left = codes "abc"; broken = none }))
      (opened (record { left = codes "abd"; broken = none }))
    ≡ returned (
        if equal (codes "abc") (codes "abd")
        then idle
        else call idle (fail_assert (codes "Saved response and file did not match")))
compare_files-equal_example =
    compare_files-equal 2 idle b'o' (codes "ut") (codes "abc") (codes "abd") (omega arith)
