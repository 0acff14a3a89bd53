-- ===== src/Lib.antt =====
-- OpenDray: the plugin platform, the terminal and the model proxy of the gateway, in a model of the
-- Go code.
--
-- OpenDray runs agent sessions behind a gateway and lets plugins extend it. A plugin declares
-- permissions and contributions in a manifest; the user consents to the permissions; from then on
-- each call that the plugin makes over its bridge goes through the capability gate, which reads the
-- stored consent, decides, and writes an audit row. Revoking a consent ends the subscriptions that
-- rest on it at once. The contribution registry joins what the installed plugins add to the
-- workbench, the hook bus tells plugins what happens in a session, and a ring buffer keeps the
-- recent output of each terminal for the clients that connect later.
--
-- The parts, with the files that model them:
--   * plugin/bridge/capabilities.go, the gate: Bridge/Gate (Check, evaluate, the permission JSON),
--     Bridge/Exec (MatchExecGlobs), Bridge/Http (MatchHTTPURL, isPrivateHost), Bridge/Fs
--     (MatchFSPath). plugin/bridge/capabilities_expand.go: Bridge/Gate/Expand (ExpandPathVars,
--     CheckExpanded). A verdict, the audit rows so far and the elapsed time are explicit values;
--     an error of a store or of the JSON decoder is a constructor.
--   * plugin/bridge/manager.go: Bridge/Manager. One state holds the connections under numbers, the
--     lists of them by plugin, the `done` channels closed so far, the goroutines that write
--     revocations, and the envelopes sent; each operation is a function on that state, called with
--     its lock held, and goroutines are values, so that they may run in any order later.
--   * kernel/terminal/buffer.go: Terminal/RingBuffer. A write that would panic is `none`; a
--     channel is the list of what waits in it.
--   * plugin/hooks.go: Plugin/Hooks. Dispatch returns the goroutines that it starts.
--   * plugin/contributions/registry.go, with types of plugin/manifest.go: Plugin/Contributions,
--     its child Flatten for the sorted view.
--   * plugin/host/supervisor.go: Plugin/Supervisor. Ensure is cut where it gives up the lock; a
--     goroutine that has started a process, or is about to shut one down, is an entry of a list of
--     the state, and a step relation lets all of them come in any order. Starting and exiting are
--     its inputs. Its child Launch has what spawn computes before it starts the process.
--   * plugin/host/jsonrpc.go: Plugin/Frame. Reading takes the bytes that are still to come, up to the
--     end of the stream, and returns those that are left; the writer is a function that may fail.
--   * plugin/host/mux.go: Plugin/Mux. One stretch of a goroutine is a function on the multiplexer's
--     state, and a step relation lets them come in any order; a call's channel is the list of what
--     waits in it. Its child Loop has the read loop, over what Plugin/Frame reads.
--   * plugin/install, consent.go and Confirm, Uninstall, PeekName and the janitor of install.go:
--     Plugin/Install, with its children Confirm and Uninstall. The database and the directories are
--     parts of one state; whether a step on them works is an input. What the installer needs of the
--     plugin runtime is an interface.
--     Its child Stage has Stage and LoadManifestWithRaw.
--   * plugin/manifest.go, manifest_validate.go and manifest_strict.go: Plugin/Manifest. Its children
--     Grammar, Contributed, Host, Validate and Strict have the rules, in the order of the code, and
--     return the list of errors; Labels to Known prove what a manifest without errors is.
--     validateConfigSchema is in Plugin/ConfigSchema.
--   * plugin/compat/synthesize.go: Plugin/Compat, the manifest of a plugin of the older format.
--   * plugin/commands/dispatcher.go: Plugin/Commands. What Invoke starts outside the program, and the
--     rows of the gate, are a trace beside its result.
--   * plugin/bridge/api_storage.go: Bridge/Storage, over kernel/store/plugin_kv.go: Store/Kv. The
--     table is an association list on plugin and key. What KVSet counts may be another table
--     than the one it writes to, as other calls can come between its two statements.
--   * gateway/plugins_assets.go: Gateway/Assets.
--   * plugin/market/revocation: Plugin/Revocation, which entry concerns which plugin, and a sweep.
--   * gateway/llm_proxy/stream.go, with mapFinishReason of translate.go: Gateway/LlmStream.
--     The events written so far are in the state. Its child Protocol describes, apart from the
--     code, which sequences of events are a message.
--   * gateway/llm_proxy/translate.go: Gateway/LlmTranslate, requests and whole responses.
--   * Common holds what the parts share. Go models what they use of Go's standard library:
--     Go/Strings, Go/Glob (path.Match), Go/Regexp (the expressions that occur, by derivatives), Go/Utf8,
--     Go/Path (filepath.Clean, of absolute paths and of relative ones, filepath.Join and filepath.Ext on Unix), Go/Net (net.IP), Go/Trim
--     (strings.TrimSpace), Go/Decimal (strconv.Atoi, and numbers printed in base ten), and Go/Sort,
--     the interface of sort.Slice, with an insertion sort that meets it.
--
-- A Go string is its list of bytes, or a native string where it is only compared; characters above
-- ASCII are not decoded, which matters only to `?` and `[…]` in path.Match, to the folding of case,
-- and to strings.Fields and strings.TrimSpace, which know the ASCII white space alone. A Go map is
-- an association list, whose order stands for whichever the runtime picks; where that matters, for
-- the registry, its menus and the tool calls of a stream, any other order is covered. Every loop is
-- structural recursion on what it runs over, except that printing a number takes one round more
-- than the number, which is enough: what is printed reads back as the number. The loop of
-- containsSubstr takes the rounds that the code's bound gives it, len(s)-len(substr)+1.
--
-- Parameters, since they are code outside the repository: url.Parse, net.ParseIP, encoding/json (as
-- the accessors of the decoded permissions, json.Marshal and json.Unmarshal), the consent store and
-- the audit sink, the websocket, the HTTP client, filepath.Dir, filepath.Rel and, in the installer,
-- filepath.Join, exec.LookPath, os.Getenv, os.MkdirAll, the runtime's GOOS and GOARCH, fmt's %q,
-- the table of mime types, the parameters of a chi route, the shell, the task runner and the call
-- of a sidecar, the database behind plugin_kv.go (its faults, JSONB, LIKE and the order of keys),
-- the semver package, the clock, random ids, bufio.Scanner (as the list of its lines), and
-- sort.Slice, an interface with the laws that its package documents.
--
-- Not modelled: the pipes of sidecars and the timeouts of their shutdown, the plugin runtime, the
-- catalog of the marketplace and its signatures, the bridge's namespaces but storage, sessions and
-- authentication; the gateway's other handlers, the other stores, the command line and the app,
-- which are mostly input and output.
mod Common
pub mod Go
pub mod Terminal
pub mod Bridge
pub mod Plugin
pub mod Gateway
pub mod Store
