-- ===== src/Processor/Decode.antt =====
-- What `Decode` returns: registers and immediates in range, and the fields of an encoded instruction.
use so_ii.Base.{
  ℕ, ◌+◌, ◌-◌, ◌*◌, ◌/◌, ◌^◌, ◌<◌, ◌≡◌, refl, ap, ◌∙◌, ltb, if◌then◌else◌, Run, ok, read_at,
  read_at-get_or, get_or, arith,
}
use so_ii.Processor.Instruction.{
  Instruction, OpCode, Format, ifmt, jfmt, rfmt, special, op_res, op_table, special_table, field,
  extra_of, further, decode,
}

-- Fields that name general registers, and an immediate that is a word.
pub record IsInstruction (i : Instruction) : Type 0 where
  pub rs_small : i.rs < 32
  pub rt_small : i.rt < 32
  pub rd_small : i.rd < 32
  pub extra_small : i.extra < 2 ^ 32

further-runs : (op : OpCode) (value : ℕ) → (op' : OpCode) × (further op value ≡ ok op')
further-runs special value =
    (_, read_at-get_or special_table (field value 0 6) op_res (omega arith))
further-runs op value = (_, refl)

extra_of-lt : (f : Format) (value : ℕ) → extra_of f value < 2 ^ 32
extra_of-lt ifmt value = ground arith
extra_of-lt jfmt value = omega arith
extra_of-lt rfmt value = omega arith

decode-run :
    (value : ℕ) (code op : OpCode) (format : Format)
    → read_at op_table (field value 26 6) ≡ ok (code, format)
    → further code value ≡ ok op
    → decode value
      ≡ ok (record {
        op_code = op;
        rs = field value 21 5;
        rt = field value 16 5;
        rd = field value 11 5;
        extra = extra_of format value;
      })
unfolding decode
decode-run value code op format h f = rw (h, f) refl

-- `Decode` stays within its tables for every word, and gives registers and an immediate in range.
pub decode-IsInstruction : (value : ℕ) → (i : Instruction) × (decode value ≡ ok i) × IsInstruction i
decode-IsInstruction value =
    let (code, format) = get_or op_table (field value 26 6) (op_res, ifmt) in
    let (op, run) = further-runs code value in
    (
      _,
      decode-run value code op format
          (read_at-get_or op_table (field value 26 6) (op_res, ifmt) (omega arith)) run,
      record {
        rs_small = omega arith;
        rt_small = omega arith;
        rd_small = omega arith;
        extra_small = extra_of-lt format value;
      },
    )

same_fields :
    (op : OpCode) (a b c d a' b' c' d' : ℕ)
    → a ≡ a'
    → b ≡ b'
    → c ≡ c'
    → d ≡ d'
    → ◌≡◌ {A = Run Instruction}
        (ok (record { op_code = op; rs = a; rt = b; rd = c; extra = d }))
        (ok (record { op_code = op; rs = a'; rt = b'; rd = c'; extra = d' }))
same_fields op a b c d a' b' c' d' e₁ e₂ e₃ e₄ = rw (e₁, e₂, e₃, e₄) refl

-- The word of an instruction with three registers.
abbrev pub r_word : (rs rt rd shamt funct : ℕ) → ℕ
r_word rs rt rd shamt funct = rs * 2 ^ 21 + rt * 2 ^ 16 + rd * 2 ^ 11 + shamt * 2 ^ 6 + funct

-- An instruction with three registers is decoded to its fields, and to the code that the second
-- table has for its function.
pub decode-r_word :
    (rs rt rd shamt funct : ℕ)
    → rs < 32
    → rt < 32
    → rd < 32
    → shamt < 32
    → funct < 64
    → decode (r_word rs rt rd shamt funct)
      ≡ ok (record {
        op_code = get_or special_table funct op_res;
        rs = rs;
        rt = rt;
        rd = rd;
        extra = shamt;
      })
decode-r_word rs rt rd shamt funct hs ht hd ha hf =
    let value = r_word rs rt rd shamt funct in
    let top : field value 26 6 ≡ 0 = omega arith in
    let low : field value 0 6 ≡ funct = omega arith in
    let f₁ : field value 21 5 ≡ rs = omega arith in
    let f₂ : field value 16 5 ≡ rt = omega arith in
    let f₃ : field value 11 5 ≡ rd = omega arith in
    let f₄ : field value 6 5 ≡ shamt = omega arith in
    decode-run value special (get_or special_table funct op_res) rfmt (ap (read_at op_table) top)
      (ap (read_at special_table) low ∙ read_at-get_or special_table funct op_res hf)
    ∙ same_fields _ _ _ _ _ _ _ _ _ f₁ f₂ f₃ f₄

-- The word of an instruction with two registers and an immediate.
abbrev pub i_word : (op rs rt imm : ℕ) → ℕ
i_word op rs rt imm = op * 2 ^ 26 + rs * 2 ^ 21 + rt * 2 ^ 16 + imm

-- An instruction with an immediate, of code `op`, is decoded to that code's entry in the first table,
-- to its registers, and to its immediate as a signed number of 16 bits.
pub decode-i_word :
    (op rs rt imm : ℕ) (code : OpCode)
    → op < 64
    → rs < 32
    → rt < 32
    → imm < 2 ^ 16
    → read_at op_table op ≡ ok (code, ifmt)
    → further code (i_word op rs rt imm) ≡ ok code
    → decode (i_word op rs rt imm)
      ≡ ok (record {
        op_code = code;
        rs = rs;
        rt = rt;
        rd = imm / 2 ^ 11;
        extra = if ltb imm (2 ^ 15) then imm else imm + (2 ^ 32 - 2 ^ 16);
      })
decode-i_word op rs rt imm code ho hs ht hi h f =
    let value = i_word op rs rt imm in
    let top : field value 26 6 ≡ op = omega arith in
    let f₁ : field value 21 5 ≡ rs = omega arith in
    let f₂ : field value 16 5 ≡ rt = omega arith in
    let f₃ : field value 11 5 ≡ imm / 2 ^ 11 = omega arith in
    let low : field value 0 16 ≡ imm = omega arith in
    decode-run value code code ifmt (ap (read_at op_table) top ∙ h) f
    ∙ same_fields _ _ _ _ _ _ _ _ _ f₁ f₂ f₃
        (ap (λ (n : ℕ). if ltb n (2 ^ 15) then n else n + (2 ^ 32 - 2 ^ 16)) low)
