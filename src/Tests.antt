-- ===== src/Tests.antt =====
-- Runs of the definitions on small inputs, and the properties applied to inputs that meet their
-- hypotheses.
mod Samples
mod Clocks
mod Logs
mod Moments
mod Graphs
mod Agents
mod Gateway
mod Restarts
mod Formats
mod Wires
mod Stores
mod Searches
mod Seeds
mod Numbers
mod Shares
mod Channels
mod Magnitudes
mod Services
mod Processes
mod Streams
