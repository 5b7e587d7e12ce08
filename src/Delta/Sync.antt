-- ===== src/Delta/Sync.antt =====
-- When the reader's texts and the writer's table agree, and what it means that a reading action
-- reads back what a writing action wrote.
use halospawns_infra.Prelude.{ℕ, ◌≡◌, refl, ap, some, List, [], ◌++◌, length, get_elem?, arith}
use halospawns_infra.Prelude.Results.{Result, ok, err}
use halospawns_infra.Delta.Codes.{Text}
use halospawns_infra.Delta.Error.{Error}
use halospawns_infra.Delta.Reader.{M, ◌>>=◌, pure}
use halospawns_infra.Delta.Writer
use halospawns_infra.Delta.Writer.{Table, Write, lookup}
use mathlib.Core.List.{append_assoc}

pub record Sync (t : Table) (ss : List Text) : Type 0 where
  pub found : (s : Text) (i : ℕ) → lookup s t ≡ some i → get_elem? ss i ≡ some s
  pub size : length t ≡ length ss

-- `r` takes exactly `out`, keeps the two sides in step, and returns a value with `P`.
pub record Run {A : Type 0} (P : A → Type 0) (r : M A) (out : List ℕ) (t' : Table) (rest : List ℕ)
    (ss : List Text) : Type 0 where
  pub value : A
  pub texts : List Text
  pub sync : Sync t' texts
  pub fits : P value
  pub runs :
      r (record { bytes = out ++ rest; strings = ss })
      ≡ ok (value, record { bytes = rest; strings = texts })

-- Whenever the write `m` succeeds, `r` reads its output back.
pub record Reads {A : Type 0} (m : Write) (r : M A) (P : A → Type 0) : Type 0 where
  pub reading :
      (t t' : Table) (out : List ℕ)
      → m t ≡ ok (out, t')
      → (rest : List ℕ) (ss : List Text) → Sync t ss
      → Run P r out t' rest ss

-- What a successful write gave.
pub written :
    {a b : List ℕ} {t t' : Table}
    → ◌≡◌ {A = Result Error (List ℕ × Table)} (ok (a, t)) (ok (b, t'))
    → (a ≡ b) × (t ≡ t')
written h = ground arith

append_parts :
    (a : List ℕ) (o2 : Result Error (List ℕ × Table)) (out : List ℕ) (t' : Table)
    → Writer.append_out a o2 ≡ ok (out, t')
    → (b : List ℕ) × (o2 ≡ ok (b, t')) × (a ++ b ≡ out)
append_parts a (err e) out t' h = cc
append_parts a (ok (b, t2)) out t' h = let (p, q) = written h in (b, ap (λ t. ok (b, t)) q, p)

-- The parts of a successful sequence of two writes.
continue_parts :
    (o1 : Result Error (List ℕ × Table)) (k : Write) (out : List ℕ) (t' : Table)
    → Writer.continue o1 k ≡ ok (out, t')
    → (a : List ℕ) × (t1 : Table) × (b : List ℕ) × (o1 ≡ ok (a, t1))
      × (k t1 ≡ ok (b, t'))
      × (a ++ b ≡ out)
continue_parts (err e) k out t' h = cc
continue_parts (ok (a, t1)) k out t' h =
    let (b, p, q) = append_parts a (k t1) out t' h in (a, t1, b, refl, p, q)

module _ {A B : Type 0} {P : A → Type 0} {Q : B → Type 0} where
  Run-continue :
      (r : M A) (f : A → M B) (out more all : List ℕ) (t1 t' : Table) (rest : List ℕ)
      (ss : List Text)
      → out ++ more ≡ all
      → (first : Run P r out t1 (more ++ rest) ss) → Run Q (f first.value) more t' rest first.texts
      → Run Q (r >>= f) all t' rest ss
  Run-continue r f out more all t1 t' rest ss e first second = record {
    value = second.value;
    texts = second.texts;
    sync = second.sync;
    fits = second.fits;
    runs = rw (← e, append_assoc, first.runs) second.runs;
  }

  -- Two writes one after the other are read by two reads one after the other.
  pub Reads-bind :
      (m k : Write) (r : M A) (f : A → M B)
      → Reads m r P
      → ((a : A) → P a → Reads k (f a) Q)
      → Reads (Writer.◌>>◌ m k) (r >>= f) Q
  Reads-bind m k r f hm hk = record {
    reading = λ t t' out e rest ss sync.
        let (a, t1, b, em, ek, eo) = continue_parts (m t) k out t' e in
        let first = hm.reading t t1 a em (b ++ rest) ss sync in
        Run-continue r f a b out t1 t' rest ss eo first
          ((hk first.value first.fits).reading t1 t' b ek rest first.texts first.sync);
  }

  -- Reading that takes no bytes may follow.
  pub Reads-bind_done :
      (m : Write) (r : M A) (f : A → M B)
      → Reads m r P
      → ((a : A) → P a → Reads Writer.done (f a) Q)
      → Reads m (r >>= f) Q
  Reads-bind_done m r f h q = record {
    reading = λ t t' out e rest ss sync.
        let first = h.reading t t' out e rest ss sync in
        let second = (q first.value first.fits).reading t' t' [] refl rest first.texts first.sync in
        record {
          value = second.value;
          texts = second.texts;
          sync = second.sync;
          fits = second.fits;
          runs = rw first.runs second.runs;
        };
  }

module _ {A : Type 0} {P : A → Type 0} where
  pub Reads-pure : (a : A) → P a → Reads Writer.done (pure a) P
  Reads-pure a h = record {
    reading = λ t t' out e rest ss sync. record {
      value = a;
      texts = ss;
      sync = rw (← (written e).1) sync;
      fits = h;
      runs = rw (← (written e).0);
    };
  }

-- What a write of fixed bytes that leaves the table alone has to show.
pub Reads-bytes :
    {A : Type 0} {P : A → Type 0} (out : List ℕ) (r : M A) (a : A)
    → P a
    → ((rest : List ℕ) (ss : List Text)
        → r (record { bytes = out ++ rest; strings = ss })
          ≡ ok (a, record { bytes = rest; strings = ss }))
    → Reads (Writer.bytes out) r P
Reads-bytes out r a h runs = record {
  reading = λ t t' out' e rest ss sync. record {
    value = a;
    texts = ss;
    sync = rw (← (written e).1) sync;
    fits = h;
    runs = rw (← (written e).0) (runs rest ss);
  };
}

-- The same where nothing follows what is read.
pub record Ends {A : Type 0} (m : Write) (r : M A) (P : A → Type 0) : Type 0 where
  pub ending :
      (t t' : Table) (out : List ℕ)
      → m t ≡ ok (out, t')
      → (ss : List Text) → Sync t ss
      → Run P r out t' [] ss

module _ {A B : Type 0} {P : A → Type 0} {Q : B → Type 0} where
  pub Ends-bind :
      (m k : Write) (r : M A) (f : A → M B)
      → Reads m r P
      → ((a : A) → P a → Ends k (f a) Q)
      → Ends (Writer.◌>>◌ m k) (r >>= f) Q
  Ends-bind m k r f hm hk = record {
    ending = λ t t' out e ss sync.
        let (a, t1, b, em, ek, eo) = continue_parts (m t) k out t' e in
        let first = hm.reading t t1 a em (b ++ []) ss sync in
        Run-continue r f a b out t1 t' [] ss eo first
          ((hk first.value first.fits).ending t1 t' b ek first.texts first.sync);
  }

pub Reads-implied :
    {A : Type 0} {P Q : A → Type 0} {m : Write} {r : M A}
    → ((a : A) → P a → Q a)
    → Reads m r P
    → Reads m r Q
Reads-implied f h = record {
  reading = λ t t' out e rest ss sync.
      let run = h.reading t t' out e rest ss sync in
      record {
        value = run.value;
        texts = run.texts;
        sync = run.sync;
        fits = f run.value run.fits;
        runs = run.runs;
      };
}
