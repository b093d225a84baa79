-- ===== src/Lib.antt =====
-- Verification of the Pulsitor LAN agent: what it plans, probes, sweeps,
-- reports and stores, and how it is installed.
--
-- The agent runs inside a local network. It sweeps the networks that its server has enabled, probes
-- the devices that the server wants watched, reports what it saw, and takes its next configuration
-- from the answer to that report.
--
-- Parts, and where they are modelled:
-- - Base: Boolean tests, decidable equality by instances, 64-bit integers, maps as functions from a
--   key to an optional value, lists, and lemmas on `for range` loops.
-- - Discover.Mac: `NormaliseMAC` and its helpers of internal/discover/neighbors.go.
-- - Discover.Net: `Hosts` and `IsPrivate` of internal/discover/interfaces.go, `isEdgeAddress` of
--   internal/discover/discover.go, over addresses as numbers.
-- - Discover.Sweep: `RunContext`, `record` and `neighboursIn` of internal/discover/discover.go.
-- - Discover.Local: `Attachments` and `ProbeLocalContext` of internal/discover/interfaces.go.
-- - Discover.Icmp: internal/discover/icmp.go. Icmp.Packet is the echo requests and `checksum`,
--   Icmp.Connection is `probeWithConnection`, `ProbeContext` and `SweepContext`, and `probe` of
--   icmp_unix.go.
-- - Discover.Table: `parseProcNetARP` and `parseArpCommand` of internal/discover/neighbors.go.
-- - Config: the types, `Equal` and `Validate` of internal/config/config.go; Config.StateFile is `Load`,
--   `Save` and `EnsureWritable`.
-- - Schedule: internal/agent/schedule.go, one function for each method.
-- - Report: the types of internal/report/client.go; Report.Client is `ValidateURL`, `Canonical`,
--   `Enroll`, `ReportContext` and what they use.
-- - Agent: internal/agent/agent.go. Neighbours is the index of the kernel's table, Probing is
--   `probeTargetsContext`, Round is `round` with `rescue` and `reportDiscovery`, Backoff is
--   `defaultBackoff`, and Running is `Run`, with `noteAnswers` and `forget`.
-- - Logging: internal/logging/logging.go, the file that rolls over, and `Sink`.
-- - Service: `Status`, `commandLine` and `quote` of internal/service/service.go. Service.Binary is its
--   `InstallBinary`; Service.Systemd is systemd.go, the unit; Service.Launchd is launchd.go, the job
--   and its start, stop and query; Service.Linux is service_linux.go, as the list of what an operation
--   does to the machine; Service.Windows is service_windows.go: `serviceMain`, `serviceControl` and
--   the context of `Run` as steps, `stop` and `stateName`.
-- - Command: cmd/pulsitor-lan-agent/main.go: `resolveToken`, `client` and `enrolledState`, and in
--   Command.Running `main1`, `runCommand` up to the runner, and the `service` actions.
-- - Examples: concrete values, tests, and the theorems applied to them.
--
-- How they interact: `run_pass` asks the schedule what is due, `round` probes those targets, sweeps,
-- and records the outcome in the schedule, and the server's answer goes through `apply` into the
-- schedule of the next pass. `validate` guards what the server may send. Before that, `run_command`
-- loads the stored identity, or redeems a token and saves what it got, and `install_service` hands
-- the service manager a definition that leads back to that file.
--
-- How the code is read:
-- - A method that changes its receiver is a function to the new record; a map is a function, and
--   deleting a key makes its value `none`; a nil pointer or slice is `none` where the code tells them
--   apart. A text is the list of its bytes, and where it is trimmed or split into words, of its
--   characters.
-- - An instant is the number of nanoseconds since Go's zero time, read from the wall clock only; a
--   duration is a number of nanoseconds, and `Sub` saturates at the largest one. The products that
--   can wrap, of seconds and of slots, wrap at 64 bits.
-- - What comes from outside is an argument: the package `net` on texts (`NetText`), what each probe
--   and sweep returns, the kernel's table, the names of the resolver, the clock, the random number,
--   what URLs, JSON and HMAC mean, and the server's answer. Cancellation is a flag of a pass, before
--   it or during its round.
-- - Loops are structural recursions over their lists, so no fuel is needed, but for the loop that folds
--   a checksum: it has fuel for three rounds, and needs two at most. `run_passes` makes one pass for
--   each element of a list of what the passes meet. Log lines are left out.
-- - The disk is a map from paths to bytes, without permissions. What a system call returns is an
--   argument of the operation that makes it, so each of them can fail; a write is seen at once.
--
-- Not modelled: the opening of sockets, ICMP on Windows (internal/discover/icmp_windows.go), the
-- readers of the kernel's table, reverse DNS, the permissions of the state file, the parsing of flags,
-- and the installation on macOS and Windows, whose answers are arguments of the commands
-- (internal/service/service_darwin.go, and the handles of service_windows.go).
-- They are input and output around the parts above.
pub mod Base
pub mod Discover
pub mod Config
pub mod Schedule
pub mod Report
pub mod Agent
pub mod Logging
pub mod Command
pub mod Service
pub mod Examples
