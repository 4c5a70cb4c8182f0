-- ===== src/Backends/Results.antt =====
-- What of a result reaches the shared memory.
use http.Base.{
  ℕ, zero, suc, ◌+◌, ◌<◌, ◌≡◌, refl, ap, ◌∙◌, true, false, some, [], ◌∷◌, Bytes, arith,
  Option-cases, inl, inr, get_elem?, length, ◌==◌, ==_refl,
}
use http.Backends.{Memory, Handler, Python, python_process, Jni, copy_bytes, java_result}

module _ {Object S : Type 0} where
  python_process-memory :
      (python : Python Object S) (handler : Handler Object) (index : ℕ) (s : S) (memory : Memory)
      → (python_process python handler index (s, memory)).1 ≡ memory
  unfolding python_process
  python_process-memory python handler index s memory =
      elim (Option-cases (python.invoke handler.backend handler.req_payload_string s).0) [
        | inl n ↦ rw (n, python_process) refl
        | inr (text, e) ↦ rw (e, python_process) refl
      ]

copy_bytes-before :
    (text : Bytes) (address a : ℕ) (bytes : ℕ → ℕ)
    → a < address
    → copy_bytes address text bytes a ≡ bytes a
unfolding copy_bytes
copy_bytes-before [] address a bytes h = refl
copy_bytes-before (b ∷ text) address a bytes h =
    let other : (a == address) ≡ false = ground arith in
    rw other (copy_bytes-before text (suc address) a bytes (omega arith))

copy_bytes-there :
    (text : Bytes) (address k b : ℕ) (bytes : ℕ → ℕ)
    → get_elem? text k ≡ some b
    → copy_bytes address text bytes (address + k) ≡ b
unfolding copy_bytes
copy_bytes-there [] address k b bytes h = absurd cc
copy_bytes-there (c ∷ text) address zero b bytes h =
    let same : (address + 0 == address) ≡ true = ground arith in rw same cc
copy_bytes-there (c ∷ text) address (suc k) b bytes h =
    let other : (address + suc k == address) ≡ false = ground arith in
    let next : address + suc k ≡ suc address + k = omega arith in
    rw other (
      ap (copy_bytes (suc address) text bytes) next
      ∙ copy_bytes-there text (suc address) k b bytes h)

module _ {Class Method Text S : Type 0} (result_address : ℕ → ℕ) (meta_address : ℕ → ℕ → ℕ) where
  -- A result of the Java backend stands in the memory afterwards, byte for byte, with its length.
  java_result-stores :
      (jni : Jni Class Method Text S) (index k b : ℕ) (result : Text) (s : S) (memory : Memory)
      → let text = (jni.get_string_utf_chars result s).0 in
        get_elem? text k ≡ some b
        → let m = (java_result result_address meta_address jni index (some result) (s, memory)).1 in
          (m.bytes (result_address index + k) ≡ b)
          × (m.lengths (meta_address index 7) ≡ length text)
  unfolding java_result
  java_result-stores jni index k b result s memory h = (
    copy_bytes-there _ (result_address index) k b memory.bytes h,
    rw (==_refl (meta_address index 7)) refl,
  )
