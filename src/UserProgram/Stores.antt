-- ===== src/UserProgram/Stores.antt =====
-- What `WriteBufferToUser` of userprog/transfer.cc leaves in the memory, through machine/mmu.cc.
use so_ii.Base.{
  ℕ, zero, suc, ◌+◌, ◌%◌, ◌^◌, ◌<◌, ◌≡◌, ◌≢◌, refl, ap, ◌∙◌, true, inr, List, [], ◌∷◌, length,
  get_or, set, length-set, get_or-set, ok, write_at-set, arith,
}
use so_ii.Mmu
use so_ii.Mmu.{Mmu, memory_size, no_exception, sign_extend, translate, write_bytes}
use so_ii.Mmu.Translate.{IsReady, frame, address_of}
use so_ii.Mmu.Access.{translate-Translates}
use so_ii.Mmu.Store.{address_of-in_range, address_of_congr}
use so_ii.Processor
use so_ii.Processor.{Machine, Handlers}
use so_ii.Processor.Words.{add32}
use so_ii.UserProgram.Transfer.{write_byte, write_buffer_from}

-- A buffer of a program: `n` addresses that can be written, each at a place of its own in the memory.
pub record IsWritable (m : Mmu) (addr n : ℕ) (place : ℕ → ℕ) : Type 0 where
  pub ready : IsReady m
  pub no_wrap : addr + n < 2 ^ 32
  pub mapped : (k : ℕ) → k < n → address_of m (addr + k) 1 true ≡ inr (place k)
  pub distinct : (j k : ℕ) → j < n → k < n → place j ≡ place k → j ≡ k

sign_extend_byte : (byte : ℕ) → sign_extend byte % 256 ≡ byte % 256
sign_extend_byte byte = ground arith

-- A byte that is written: the machine changes at its place, and translates as before.
record StoresByte (handlers : Handlers) (m : Machine) (a p byte : ℕ) : Type 0 where
  after : Mmu
  runs : write_byte handlers m a byte ≡ ok (record m { mmu = after })
  ready : IsReady after
  frames : (vpn : ℕ) → frame after vpn ≡ frame m.mmu vpn
  memory : after.main_memory ≡ set m.mmu.main_memory p (byte % 256)

write_byte-StoresByte :
    (handlers : Handlers) (m : Machine) (a p byte : ℕ)
    → IsReady m.mmu
    → address_of m.mmu a 1 true ≡ inr p
    → StoresByte handlers m a p byte
unfolding Processor.write_mem Mmu.write_mem write_bytes
write_byte-StoresByte handlers m a p byte ready e =
    let t = translate-Translates m.mmu a 1 true ready refl in
    let (inside, _) = address_of-in_range m.mmu a 1 p true refl e in
    let memory' = set t.after.main_memory p (byte % 256) in
    record {
      after = record t.after { main_memory = memory' };
      runs =
          rw
            (
              t.runs,
              e,
              sign_extend_byte byte,
              write_at-set t.after.main_memory p (byte % 256)
                  (omega (arith, inside, ap length t.memory, ready.full)),
            )
            refl;
      ready = record {
        full = length-set t.after.main_memory p (byte % 256) ∙ ap length t.memory ∙ ready.full;
        table = t.table;
      };
      frames = t.frames;
      memory = ap (λ memory. set memory p (byte % 256)) t.memory;
    }

-- The bytes are at their places, and nothing else is changed.
pub record Stores (handlers : Handlers) (m : Machine) (addr : ℕ) (bytes : List ℕ) (place : ℕ → ℕ)
    : Type 0 where
  pub after : Mmu
  pub runs : write_buffer_from handlers (length bytes) m addr bytes ≡ ok (record m { mmu = after })
  pub ready : IsReady after
  pub frames : (vpn : ℕ) → frame after vpn ≡ frame m.mmu vpn
  pub bytes_in :
      (k : ℕ) → k < length bytes → get_or after.main_memory (place k) 0 ≡ get_or bytes k 0 % 256
  pub others :
      (q : ℕ)
      → ((k : ℕ) → k < length bytes → place k ≢ q)
      → get_or after.main_memory q 0 ≡ get_or m.mmu.main_memory q 0

get_or-set_here : (xs : List ℕ) (i v : ℕ) → i < length xs → get_or (set xs i v) i 0 ≡ v
get_or-set_here xs i v h = ground (arith, get_or-set xs i i v 0 h)

get_or-set_apart :
    (xs : List ℕ) (i j v : ℕ) → i < length xs → i ≢ j → get_or (set xs i v) j 0 ≡ get_or xs j 0
get_or-set_apart xs i j v h apart = ground (arith, get_or-set xs i j v 0 h)

each :
    (byte : ℕ) (bytes : List ℕ) (place : ℕ → ℕ) (memory : List ℕ)
    → get_or memory (place 0) 0 ≡ byte % 256
    → ((k : ℕ) → k < length bytes → get_or memory (place (suc k)) 0 ≡ get_or bytes k 0 % 256)
    → (k : ℕ) → k < suc (length bytes)
    → get_or memory (place k) 0 ≡ get_or (byte ∷ bytes) k 0 % 256
each byte bytes place memory first rest zero less = first
each byte bytes place memory first rest (suc k) less = rest k (omega arith)

module _ (handlers : Handlers) where
  write_buffer_from-suc :
      (n : ℕ) (m m₁ : Machine) (a byte : ℕ) (bytes : List ℕ)
      → write_byte handlers m a byte ≡ ok m₁
      → write_buffer_from handlers (suc n) m a (byte ∷ bytes)
        ≡ write_buffer_from handlers n m₁ (add32 a 1) bytes
  unfolding write_buffer_from
  write_buffer_from-suc n m m₁ a byte bytes run = rw run refl

  pub write_buffer_from-Stores :
      (bytes : List ℕ) (m : Machine) (addr : ℕ) (place : ℕ → ℕ)
      → IsWritable m.mmu addr (length bytes) place
      → Stores handlers m addr bytes place
  unfolding write_buffer_from
  write_buffer_from-Stores [] m addr place w = record {
    after = m.mmu;
    runs = refl;
    ready = w.ready;
    frames = λ vpn. refl;
    bytes_in = λ k less. absurd (omega arith);
    others = λ q apart. refl;
  }
  write_buffer_from-Stores (byte ∷ bytes) m addr place w =
      let first = w.mapped 0 (omega arith) in
      let at =
        ap (λ a. address_of m.mmu a 1 true) (let e : addr ≡ addr + 0 = omega arith in e) ∙ first in
      let (inside, _) = address_of-in_range m.mmu addr 1 (place 0) true refl at in
      let b = write_byte-StoresByte handlers m addr (place 0) byte w.ready at in
      let next : add32 addr 1 ≡ addr + 1 = omega (arith, w.no_wrap) in
      let here : place 0 < length m.mmu.main_memory = omega (arith, inside, w.ready.full) in
      let rest =
        write_buffer_from-Stores bytes (record m { mmu = b.after }) (addr + 1) (λ k. place (suc k))
          (record {
            ready = b.ready;
            no_wrap = omega (arith, w.no_wrap);
            mapped = λ k less.
                address_of_congr m.mmu b.after (addr + 1 + k) 1 true b.frames
                ∙ ap (λ a. address_of m.mmu a 1 true)
                    (let e : addr + 1 + k ≡ addr + suc k = omega arith in e)
                ∙ w.mapped (suc k) (omega arith);
            distinct = λ j k lj lk e.
                omega (arith, w.distinct (suc j) (suc k) (omega arith) (omega arith) e);
          }) in
      record {
        after = rest.after;
        runs =
            write_buffer_from-suc (length bytes) m (record m { mmu = b.after }) addr byte bytes
              b.runs
            ∙ ap
                (λ a.
                  write_buffer_from handlers (length bytes) (record m { mmu = b.after }) a bytes)
                next
            ∙ rest.runs;
        ready = rest.ready;
        frames = λ vpn. rest.frames vpn ∙ b.frames vpn;
        bytes_in =
            each byte bytes place rest.after.main_memory
              (rest.others (place 0) (λ k less e. first_apart k less e w.distinct)
                ∙ ap (λ memory. get_or memory (place 0) 0) b.memory
                ∙ get_or-set_here m.mmu.main_memory (place 0) (byte % 256) here)
              rest.bytes_in;
        others = λ q apart.
            rest.others q (λ k less. apart (suc k) (omega arith))
            ∙ ap (λ memory. get_or memory q 0) b.memory
            ∙ get_or-set_apart m.mmu.main_memory (place 0) q (byte % 256) here
                (apart 0 (omega arith));
      }
    where
      first_apart :
          (k : ℕ)
          → k < length bytes
          → place (suc k) ≡ place 0
          → ((i j : ℕ)
              → i < suc (length bytes)
              → j < suc (length bytes)
              → place i ≡ place j
              → i ≡ j)
          → ⊥
      first_apart k less e distinct =
          omega (arith, distinct (suc k) 0 (omega arith) (omega arith) e)
