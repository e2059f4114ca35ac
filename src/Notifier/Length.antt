-- ===== src/Notifier/Length.antt =====
-- How long the text of an alert can be.
use Prim.Native.String.{[] as no_text, ◌∷◌ as char_then, ◌++◌ as join}
use Prim.Native.Char.{code}
use text.Mathlib.TextLemmas.{cons-append, nil-append}
use mathlib.Core.List.{append_assoc}
use chronos_monitor.Prelude.{
  ℕ, zero, suc, ◌+◌, ◌/◌, ◌%◌, ◌≤◌, ◌<◌, String, str_eq, ltb, leb, ℤ, pos, negsuc, List, ◌++◌,
  length, take, length-append, length-take, ◌≡◌, refl, sym, ap, ◌∙◌, Option, none, some, Bool-cases,
  inl, inr, arith, digit, decimal, decimal_within,
}
use chronos_monitor.Models.{TaskStatus, TaskRun}
use chronos_monitor.Notifier.{
  truncate, max_error_message_len, icon, verb, quoted_unless_empty, duration_line, error_lines,
  headline, format_message,
}
use chronos_monitor.Notifier.Bytes.{bytes, encoded}

abbrev pub size : String → ℕ
size text = length (bytes text)

bytes-join : (s t : String) → bytes (join s t) ≡ bytes s ++ bytes t
unfolding bytes
bytes-join no_text t = rw (nil-append t) refl
bytes-join (char_then c s) t = rw (cons-append c s t) (
    ap (λ r. encoded (code c) ++ r) (bytes-join s t)
    ∙ sym (append_assoc (encoded (code c)) (bytes s) (bytes t)))

size-join : (s t : String) → size (join s t) ≡ size s + size t
size-join s t = rw (bytes-join s t) (length-append (bytes s) (bytes t))

size-digit : (d : ℕ) → d < 10 → size (digit d) ≡ 1
unfolding bytes
size-digit zero h = refl
size-digit (suc zero) h = refl
size-digit (suc (suc zero)) h = refl
size-digit (suc (suc (suc zero))) h = refl
size-digit (suc (suc (suc (suc zero)))) h = refl
size-digit (suc (suc (suc (suc (suc zero))))) h = refl
size-digit (suc (suc (suc (suc (suc (suc zero)))))) h = refl
size-digit (suc (suc (suc (suc (suc (suc (suc zero))))))) h = refl
size-digit (suc (suc (suc (suc (suc (suc (suc (suc zero)))))))) h = refl
size-digit (suc (suc (suc (suc (suc (suc (suc (suc (suc zero))))))))) h = refl
size-digit (suc (suc (suc (suc (suc (suc (suc (suc (suc (suc n)))))))))) h = absurd (omega arith)

size-decimal_within : (k n : ℕ) → size (decimal_within k n) ≤ k
unfolding decimal_within bytes
size-decimal_within zero n = omega arith
size-decimal_within (suc k) n = elim (Bool-cases (ltb n 10)) [
  | inl small ↦ rw small (omega (arith, size-digit n (ground arith)))
  | inr large ↦ rw large (
      omega (
        arith,
        size-join (decimal_within k (n / 10)) (digit (n % 10)),
        size-decimal_within k (n / 10),
        size-digit (n % 10) (omega arith),
      ))
]

size-decimal : (n : ℤ) → size (decimal n) ≤ 20
unfolding bytes
size-decimal (pos n) = omega (arith, size-decimal_within 19 n)
size-decimal (negsuc n) =
    omega (arith, size-join "-" (decimal_within 19 (suc n)), size-decimal_within 19 (suc n))

size-icon : (status : TaskStatus) → size (icon status) ≤ 6
unfolding bytes
size-icon TaskStatus.running = omega arith
size-icon TaskStatus.success = omega arith
size-icon TaskStatus.failed = omega arith
size-icon TaskStatus.timeout = omega arith
size-icon TaskStatus.missed = omega arith

size-verb : (status : TaskStatus) → size (verb status) ≤ 23
unfolding bytes
size-verb TaskStatus.running = omega arith
size-verb TaskStatus.success = omega arith
size-verb TaskStatus.failed = omega arith
size-verb TaskStatus.timeout = omega arith
size-verb TaskStatus.missed = omega arith

length-three : (a b c : List ℕ) → length (a ++ b ++ c) ≡ length a + length b + length c
length-three a b c = omega (arith, length-append {0} (a ++ b) c, length-append {0} a b)

length-five :
    (a b c d e : List ℕ)
    → length (a ++ b ++ c ++ d ++ e) ≡ length a + length b + length c + length d + length e
length-five a b c d e = omega (arith, length-three (a ++ b ++ c) d e, length-three a b c)

length-truncate : (s : List ℕ) → length (truncate s max_error_message_len) ≤ 515
unfolding bytes
length-truncate s = elim (Bool-cases (leb (length s) 500)) [
  | inl short ↦ rw short (ground arith)
  | inr long ↦ rw long (
      omega
        (arith, length-append {0} (take 500 s) (bytes "... (truncated)"), length-take {0} 500 s))
]

length-headline : (task : TaskRun) → length (headline task) ≤ 33 + size task.task_name
unfolding bytes
length-headline task =
    let parts : length (headline task) ≡ _ =
      length-five (bytes (icon task.status)) (bytes " *") (bytes task.task_name) (bytes "* ")
        (bytes (verb task.status)) in
    omega (arith, parts, size-icon task.status, size-verb task.status)

length-quoted :
    (before text after : String)
    → length (quoted_unless_empty before text after) ≤ size before + size text + size after
length-quoted before text after = elim (Bool-cases (str_eq text "")) [
  | inl empty ↦ rw empty (omega arith)
  | inr full ↦ rw full (omega (arith, length-three (bytes before) (bytes text) (bytes after)))
]

length-duration : (d : Option ℤ) → length (duration_line d) ≤ 33
unfolding bytes
length-duration none = omega arith
length-duration (some n) =
    omega
      (arith, length-three (bytes "\nDuration: ") (bytes (decimal n)) (bytes "ms"), size-decimal n)

length-error : (message : String) → length (error_lines message) ≤ 522
unfolding bytes
length-error message = elim (Bool-cases (str_eq message "")) [
  | inl empty ↦ rw empty (omega arith)
  | inr full ↦ rw full (
      omega (
        arith,
        length-three (bytes "\n```") (truncate (bytes message) max_error_message_len) (bytes "```"),
        length-truncate (bytes message),
      ))
]

-- Whatever the task, and however long its error text, the text of its alert has at most 605 bytes
-- more than the task's name, run id and source together.
pub format_message-length :
    (task : TaskRun)
    → length (format_message task) ≤ size task.task_name + size task.run_id + size task.source + 605
unfolding format_message bytes
format_message-length task = omega (
  arith,
  length-five (headline task) (quoted_unless_empty " (run `" task.run_id "`)")
      (quoted_unless_empty " from `" task.source "`") (duration_line task.duration_ms)
      (error_lines task.error_message),
  length-headline task,
  length-quoted " (run `" task.run_id "`)",
  length-quoted " from `" task.source "`",
  length-duration task.duration_ms,
  length-error task.error_message,
)
