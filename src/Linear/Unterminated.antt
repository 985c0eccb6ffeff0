-- ===== src/Linear/Unterminated.antt =====
-- `KVStoreOptimized` with a key that is a view into a longer text.
use cpp_systems_playground.Prelude.{
  ℕ, ◌≡◌, refl, sym, ap, ◌∙◌, ◌≢◌, true, false, none, some, ◌++◌, arith, ok,
}
use cpp_systems_playground.Linear.Text.{
  View, c_string, hash, c_string-copy_plain, strcmp_equal_iff, copy,
}
use cpp_systems_playground.Linear.{Store, Entry, matches, insert, get, write_entry}
use cpp_systems_playground.Linear.Probing.{stop, probe-vacant, written}
use cpp_systems_playground.Linear.Reads.{probe_for, answer, get-answer, insert-written}
use cpp_systems_playground.Linear.Compact.{IsCompact, answer-written}

unterminated-matches :
    (e : Entry) (key value : View)
    → c_string key.bytes ≡ key.bytes
    → c_string (key.bytes ++ key.behind) ≢ key.bytes
    → matches (write_entry e (hash key) key value) (hash key) key ≡ false
unfolding matches write_entry
unterminated-matches e key value plain open_end = ground (
  arith,
  strcmp_equal_iff (copy key.bytes e.key) (key.bytes ++ key.behind),
  c_string-copy_plain key.bytes e.key plain,
)

vacant-answer :
    (s : Store) (key : View) (x : ℕ)
    → stop (probe_for s key) ≡ some x
    → answer s (probe_for s key) ≡ none
    → (s.entries x).occupied ≡ false
vacant-answer s key x p a = ground (arith, probe-vacant s (hash key) key s.cap 0 x)

-- In a compact store, an `insert` of a key that is not there reports success, but the same view
-- does not find the key afterwards, if the view holds no zero byte and none follows it.
pub get-insert_unterminated :
    (s : Store) (key value : View) {s' : Store}
    → IsCompact s
    → c_string key.bytes ≡ key.bytes
    → c_string (key.bytes ++ key.behind) ≢ key.bytes
    → get s key ≡ ok none
    → insert s key value ≡ ok (true, s')
    → get s' key ≡ ok none
get-insert_unterminated s key value {s'} c plain open_end absent e =
    let (x, size, pos, p, w) = insert-written s key value e in
    let entry = write_entry (s.entries x) (hash key) key value in
    let unread : answer s (probe_for s key) ≡ none = cc (get-answer s key pos, absent) in
    let free = vacant-answer s key x p unread in
    rw w (
      get-answer (written s x size entry) key pos
      ∙ ap ok (
          answer-written s x size entry key (hash key) c (unfold write_entry in refl) (λ o. cc)
            (unterminated-matches (s.entries x) key value plain open_end) s.cap 0 (omega arith))
      ∙ sym (get-answer s key pos)
      ∙ absent)
