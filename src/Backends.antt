-- ===== src/Backends.antt =====
-- Backend::Processor of src/ASBackend/PythonBackend.hpp and of src/ASBackend/JavaBackend.hpp, of
-- which a build has one. The interpreters are parameters, and so are the addresses of the shared
-- memory, whose functions the source does not define. Texts end before their zero byte.
pub mod Results
use http.Base.{
  ℕ, zero, suc, ◌+◌, ◌==◌, Bool, Option, none, some, List, [], ◌∷◌, Bytes, codes, length,
  if◌then◌else◌,
}

-- The bytes of the shared memory by address, and the lengths that are stored in it.
pub record Memory : Type 0 where
  pub bytes : ℕ → ℕ
  pub lengths : ℕ → ℕ

-- `PyClass`, or `jvm` with `jnienv`.
pub record Handler (Backend : Type 0) : Type 0 where
  pub req_payload_string : Bytes
  pub backend : Backend

-- `none` is `error_already_set`. `import_module` also makes the object of the class.
pub record Python (Object S : Type 0) : Type 0 where
  pub initialize : S → S
  pub import_module : Bytes → S → Option Object × S
  pub invoke : Object → Bytes → S → Option Bytes × S
  pub print_error : S → S

module _ {Object S : Type 0} where
  unfoldable pub python_init : Python Object S → Handler Object → S → Handler Object × S
  python_init python handler s =
      let (module_object, t) = python.import_module (codes "WebApp") (python.initialize s) in
      elim module_object [
        | none ↦ (handler, python.print_error t)
        | some object ↦ (record handler { backend = object }, t)
      ]

  -- The result is read and left; its copy to the memory is commented out.
  unfoldable pub python_process : Python Object S → Handler Object → ℕ → S × Memory → S × Memory
  python_process python handler index (s, memory) =
      let (result, t) = python.invoke handler.backend handler.req_payload_string s in
      elim result [ none ↦ (python.print_error t, memory) | some text ↦ (t, memory) ]

-- `none` is the null pointer.
pub record Jni (Class Method Text S : Type 0) : Type 0 where
  pub find_class : Bytes → S → Option Class × S
  pub get_static_method_id : Class → Bytes → Bytes → S → Option Method × S
  pub new_string_utf : Bytes → S → Text × S
  pub call_static_object_method : Class → Method → Text → S → Option Text × S
  pub release_string_utf_chars : Text → S → S
  pub exception_describe : S → S
  pub get_string_utf_chars : Text → S → Bytes × S

-- `JNI_CreateJavaVM` with the options and the version 0x00010006; `none` where it makes no machine. Its
-- result is only printed.
unfoldable pub java_init :
    {Machine S : Type 0}
    → (List Bytes → ℕ → S → Option Machine × S)
    → Handler Machine
    → S
    → Handler Machine × S
java_init create_java_vm handler s =
    let (machine, t) = create_java_vm (codes "-Djava.class.path=./json-java.jar:." ∷ []) 65542 s in
    elim machine [ none ↦ (handler, t) | some jvm ↦ (record handler { backend = jvm }, t) ]

-- memcpy.
unfoldable pub copy_bytes : ℕ → Bytes → (ℕ → ℕ) → ℕ → ℕ
copy_bytes address [] bytes a = bytes a
copy_bytes address (b ∷ text) bytes a =
    let rest = copy_bytes (suc address) text bytes a in if a == address then b else rest

abbrev pub store_length : ℕ → ℕ → (ℕ → ℕ) → ℕ → ℕ
store_length address n lengths a = if a == address then n else lengths a

module _ {Class Method Text S : Type 0} (result_address : ℕ → ℕ) (meta_address : ℕ → ℕ → ℕ) where
  -- The result of the method.
  unfoldable pub java_result : Jni Class Method Text S → ℕ → Option Text → S × Memory → S × Memory
  unfolding copy_bytes
  java_result jni index none (s, memory) = (jni.exception_describe s, memory)
  java_result jni index (some result) (s, memory) =
      let (text, t) = jni.get_string_utf_chars result s in
      (
        t,
        record {
          bytes = copy_bytes (result_address index) text memory.bytes;
          lengths = store_length (meta_address index 7) (length text) memory.lengths;
        },
      )

  -- The call of the method.
  unfoldable pub java_invoke :
      Jni Class Method Text S → Bytes → ℕ → Class → Option Method → S × Memory → S × Memory
  unfolding java_result
  java_invoke jni payload index class none (s, memory) = (s, memory)
  java_invoke jni payload index class (some method) (s, memory) =
      let (input, t) = jni.new_string_utf payload s in
      let (result, u) = jni.call_static_object_method class method input t in
      java_result jni index result (jni.release_string_utf_chars input u, memory)

  unfoldable pub java_process :
      {Machine : Type 0} → Jni Class Method Text S → Handler Machine → ℕ → S × Memory → S × Memory
  unfolding java_invoke
  java_process jni handler index (s, memory) =
      let (java_class, t) = jni.find_class (codes "WebApp") s in
      elim java_class [
        | none ↦ (t, memory)
        | some class ↦
            let (method, u) =
              jni.get_static_method_id class (codes "invoke")
                (codes "(Ljava/lang/String;)Ljava/lang/String;") t in
            java_invoke jni handler.req_payload_string index class method (u, memory)
      ]
